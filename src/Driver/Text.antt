-- ===== src/Driver/Text.antt =====
-- How src/driver.rs displays `GpuInfo`.
use gpu_compute_nostd.Base.{◌*◌, ◌/◌}
use gpu_compute_nostd.Base.Text.{decimal, bool_text}
use gpu_compute_nostd.Pci.Family.{family_name}
use gpu_compute_nostd.Driver.{GpuInfo}
use Prim.Native.String.{String, ◌++◌}

-- `impl Display for GpuInfo`
unfoldable pub gpu_info_text : GpuInfo → String
gpu_info_text i =
    i.name
    ++ " ("
    ++ family_name i.family
    ++ ", "
    ++ decimal (i.vram_bytes / (1024 * 1024))
    ++ " MiB VRAM, "
    ++ decimal i.sm_count
    ++ " SMs, compute_ready="
    ++ bool_text i.compute_ready
    ++ ")"
