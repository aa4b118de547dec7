-- ===== src/Mapping.antt =====
-- src/general/mapping.h: how a component spreads addresses over the components below it.
pub mod Stride
use Prim.Native.String.{String}
use text.Mathlib.Text.{◌==◌ as str_eq}
use vans.Base.{ℕ, ◌/◌, ◌%◌, bit_and, bit_or, if◌then◌else◌, Result, ok, err, config_error}
use vans.Base.Bits.{shl, shr}

-- The closures that `get_component_mapping_func` chooses from.
pub data ComponentMapping : Type 0 where
  none_mapping stride_mapping_4096 : ComponentMapping

-- The address in the component, and the component's index. The code divides by
-- `total_components`, which is not 0 where it is called.
pub map_none : ℕ → ℕ → ℕ × ℕ
map_none in_addr total_components = (in_addr, 0)

pub map_stride_4096 : ℕ → ℕ → ℕ × ℕ
map_stride_4096 in_addr total_components = (
  bit_or (shl (shr in_addr 12 / total_components) 12) (bit_and in_addr 0xfff),
  shr in_addr 12 % total_components,
)

unfoldable pub apply_mapping : ComponentMapping → ℕ → ℕ → ℕ × ℕ
unfolding map_none map_stride_4096
apply_mapping none_mapping in_addr total_components = map_none in_addr total_components
apply_mapping stride_mapping_4096 in_addr total_components =
    map_stride_4096 in_addr total_components

unfoldable pub get_component_mapping_func : String → Result ComponentMapping
get_component_mapping_func name =
    if str_eq name "none_mapping"
    then ok none_mapping
    else if str_eq name "stride_mapping(4096)"
    then ok stride_mapping_4096
    else err config_error
