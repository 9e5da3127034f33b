-- ===== src/Discovery/Gpu/Table.antt =====
-- gpuModelTable of pkg/controller/discovery.go: vendor:device to the model family and the memory of
-- one GPU in bytes.
use cluster_api_provider_bri.Prelude.{ℕ, ◌*◌, String, [], ◌∷◌}
use cluster_api_provider_bri.Prelude.Dict.{Dict}

pub record GpuModel : Type 0 where
  pub model : String
  pub hbm_bytes : ℕ

-- A row of the table; `n << 30` is `n` GiB.
abbrev row : String → String → ℕ → String × GpuModel
row key model n = (key, record { model = model; hbm_bytes = n * 1073741824 })

unfoldable pub gpu_model_table : Dict GpuModel
gpu_model_table =
    row "10de:2330" "h100-sxm5" 80
    ∷ row "10de:2331" "h100-pcie" 80
    ∷ row "10de:2336" "h100" 80
    ∷ row "10de:2337" "h100-sxm5-64g" 64
    ∷ row "10de:2338" "h100-sxm5-96g" 96
    ∷ row "10de:2339" "h100-sxm5-94g" 94
    ∷ row "10de:233a" "h800l-94g" 94
    ∷ row "10de:233b" "h200-nvl" 141
    ∷ row "10de:233d" "h100-96g" 96
    ∷ row "10de:2321" "h100l-94g" 94
    ∷ row "10de:2322" "h800-pcie" 80
    ∷ row "10de:2324" "h800" 80
    ∷ row "10de:2342" "gh200-120g" 96
    ∷ row "10de:2348" "gh200-144g" 144
    ∷ row "10de:2901" "b200" 192
    ∷ row "10de:2909" "hgx-b200-168g" 168
    ∷ row "10de:2941" "hgx-gb200" 192
    ∷ row "10de:3182" "b300-sxm6" 288
    ∷ row "10de:31a1" "gb300-maxq" 288
    ∷ row "10de:31c2" "gb300" 288
    ∷ row "10de:31c3" "gb300" 288
    ∷ row "10de:20b0" "a100-sxm4-40g" 40
    ∷ row "10de:20b1" "a100-pcie-40g" 40
    ∷ row "10de:20b2" "a100-sxm4-80g" 80
    ∷ row "10de:20b3" "a100-sxm-64g" 64
    ∷ row "10de:20b5" "a100-pcie-80g" 80
    ∷ row "10de:20b7" "a30-pcie" 24
    ∷ row "10de:20bd" "a800-sxm4-40g" 40
    ∷ row "10de:20f3" "a800-sxm4-80g" 80
    ∷ row "10de:20f5" "a800-pcie-80g" 80
    ∷ row "10de:20f6" "a800-pcie-40g" 40
    ∷ row "1002:6860" "mi25" 16
    ∷ row "1002:66a1" "mi50" 16
    ∷ row "1002:738c" "mi100" 32
    ∷ row "1002:738e" "mi100" 32
    ∷ row "1002:740f" "mi210" 64
    ∷ row "1002:740c" "mi250" 128
    ∷ row "1002:7408" "mi250x" 128
    ∷ row "1002:74a0" "mi300a" 128
    ∷ row "1002:74a1" "mi300x" 192
    ∷ row "1002:74a2" "mi308x" 128
    ∷ row "1002:74a5" "mi325x" 288
    ∷ row "1002:75a0" "mi350x" 288
    ∷ row "1002:75a3" "mi355x" 288
    ∷ []
