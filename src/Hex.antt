-- ===== src/Hex.antt =====
-- `hexTrip0x` and `hexAdd0x` of src/api/ccUtil.js.
use Prim.Native.String.{len, slice, ◌++◌ as text_append}
use text.Mathlib.Text.{starts_with}
use text.Mathlib.TextPositions.{len-append, slice-append_right, starts_with-append}
use wanchain_js_sdk.Prelude.{
  String, ◌≡◌, refl, ap, sym, ◌∙◌, false, true, if◌then◌else◌, Bool-cases, inl, inr,
}

unfoldable pub hex_trip0x : String → String
hex_trip0x hexs = if starts_with hexs "0x" then slice hexs 2 (len hexs) else hexs

unfoldable pub hex_add0x : String → String
hex_add0x hexs = if starts_with hexs "0x" then hexs else text_append "0x" hexs

trip-marked : (hexs : String) → starts_with hexs "0x" ≡ true → hex_add0x hexs ≡ hexs
unfolding hex_add0x
trip-marked hexs marked = rw marked refl

trip-unmarked : (hexs : String) → starts_with hexs "0x" ≡ false → hex_trip0x hexs ≡ hexs
unfolding hex_trip0x
trip-unmarked hexs bare = rw bare refl

pub hex_trip0x-append : (hexs : String) → hex_trip0x (text_append "0x" hexs) ≡ hexs
unfolding hex_trip0x
hex_trip0x-append hexs = rw (starts_with-append "0x" hexs) (
    ap (λ n. slice (text_append "0x" hexs) 2 n) (len-append "0x" hexs)
    ∙ slice-append_right "0x" hexs)

-- The prefix that is added to a text is stripped with those that were there.
pub hex_trip0x-hex_add0x : (hexs : String) → hex_trip0x (hex_add0x hexs) ≡ hex_trip0x hexs
unfolding hex_add0x
hex_trip0x-hex_add0x hexs = elim (Bool-cases (starts_with hexs "0x")) [
  | inl marked ↦ ap hex_trip0x (trip-marked hexs marked)
  | inr bare ↦ rw bare (hex_trip0x-append hexs ∙ sym (trip-unmarked hexs bare))
]
