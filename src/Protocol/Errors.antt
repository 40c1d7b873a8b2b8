-- ===== src/Protocol/Errors.antt =====
-- The stable error codes and what is registered for each (src/vgen/protocol/errors.py).
mod Spec
mod Registry
pub use Spec.{ErrorSpec, RetryAction, ErrorOrigin, Responsibility}
unfoldable pub use Spec.{retryable}
unfoldable pub use Registry.{
  error_registry, access_specs, scheduling_specs, execution_specs, maintenance_specs,
  platform_specs,
}
use vgen.Base.{
  ℕ, ◌≤◌, ◌≡◌, refl, Bool, true, false, ◌&&◌, ◌||◌, Option, none, some, List, [], ◌∷◌, leb, ◌==◌,
  if◌then◌else◌, is_none, arith, Bool-cases, inl, inr, suc, length,
}

-- A key that appears twice would drop the earlier entry of the mapping; the first is found here,
-- which is the same by `registry_distinct`.
abbrev find_spec : ℕ → List ErrorSpec → Option ErrorSpec
find_spec code [] = none
find_spec code (s ∷ rest) = if s.code == code then some s else find_spec code rest

-- `none` is the ValueError of an unknown code.
unfoldable pub get_error_spec : ℕ → Option ErrorSpec
unfolding error_registry
get_error_spec code = find_spec code error_registry

mentions : ℕ → List ErrorSpec → Bool
mentions code [] = false
mentions code (s ∷ rest) = (s.code == code) || mentions code rest

-- `len(ERROR_REGISTRY)`: the number of different codes.
registry_size : List ErrorSpec → ℕ
unfolding mentions
registry_size [] = 0
registry_size (s ∷ rest) = let n = registry_size rest in if mentions s.code rest then n else suc n

-- `len(ErrorCode)`
abbrev error_code_count : ℕ
error_code_count = 90

-- What `_validate_registry` asks of an entry.
abbrev entry_valid : ErrorSpec → Bool
entry_valid s =
    leb 100000 s.code && leb s.code 999999 && (is_none s.default_retry_after_ms || retryable s)

abbrev all_valid : List ErrorSpec → Bool
all_valid [] = true
all_valid (s ∷ rest) = entry_valid s && all_valid rest

unfoldable pub validate_registry : List ErrorSpec → Bool
unfolding registry_size retryable
validate_registry specs = registry_size specs == error_code_count && all_valid specs

registry_is_valid : validate_registry error_registry ≡ true
unfolding validate_registry error_registry
registry_is_valid = refl

registry_distinct : registry_size error_registry ≡ length error_registry
unfolding registry_size error_registry
registry_distinct = refl

registry_all_valid : all_valid error_registry ≡ true
unfolding error_registry retryable
registry_all_valid = refl

find_spec_valid :
    (specs : List ErrorSpec) (code : ℕ) (s : ErrorSpec)
    → all_valid specs ≡ true
    → find_spec code specs ≡ some s
    → (s.code ≡ code) × (entry_valid s ≡ true)
find_spec_valid [] code s v h = cc
find_spec_valid (t ∷ rest) code s v h = elim (Bool-cases (t.code == code)) [
  | inl here ↦ ground arith
  | inr there ↦ find_spec_valid rest code s (ground arith) (ground arith)
]

-- A code that is registered is found under itself, has six digits, and has a retry delay only if
-- its errors may be retried.
pub get_error_spec_valid :
    (code : ℕ) (s : ErrorSpec)
    → get_error_spec code ≡ some s
    → (s.code ≡ code)
      × (100000 ≤ code)
      × (code ≤ 999999)
      × ((ms : ℕ) → s.default_retry_after_ms ≡ some ms → retryable s ≡ true)
unfolding get_error_spec
get_error_spec_valid code s h =
    let found = find_spec_valid error_registry code s registry_all_valid h in
    ground (arith, found.0, found.1)
