-- ===== src/OtaMonitor/Extremes.antt =====
-- The bounds that `scan` of src/core/monitorOTA.js gathers in one loop, against their definition.
use wanchain_js_sdk.Prelude.{
  ℕ, String, ◌≡◌, refl, ◌∙◌, Option, none, some, List, [], ◌∷◌, ltb, arith, string_eq,
  if◌then◌else◌,
}
use wanchain_js_sdk.Prelude.Result.{ok}
use wanchain_js_sdk.Table.{read}
use wanchain_js_sdk.Table.Find.{find}
use wanchain_js_sdk.OtaMonitor.{Account, acct_rows}
use wanchain_js_sdk.OtaMonitor.Scan.{narrowed, scan_bounds}

-- the rows that are there
unfoldable pub present : List String → List Account → List Account
present [] accounts = []
present (key ∷ keys) accounts =
    let rest = present keys accounts in
    elim (find acct_rows key accounts) [ none ↦ rest | some r ↦ r ∷ rest ]

abbrev pub min : ℕ → ℕ → ℕ
min m n = if ltb m n then m else n

abbrev pub max : ℕ → ℕ → ℕ
max m n = if ltb m n then n else m

-- the least of a number and the ends, and the greatest of a number and the begins
unfoldable pub least_last : ℕ → List Account → ℕ
least_last n [] = n
least_last n (r ∷ rows) = min r.last (least_last n rows)

unfoldable pub greatest_begin : ℕ → List Account → ℕ
greatest_begin n [] = n
greatest_begin n (r ∷ rows) = max r.begin (greatest_begin n rows)

least_last-min :
    (n m : ℕ) (rows : List Account) → least_last (min m n) rows ≡ min m (least_last n rows)
unfolding least_last
least_last-min n m [] = refl
least_last-min n m (r ∷ rows) = ground (arith, least_last-min n m rows)

greatest_begin-max :
    (n m : ℕ) (rows : List Account) → greatest_begin (max n m) rows ≡ max m (greatest_begin n rows)
unfolding greatest_begin
greatest_begin-max n m [] = ground arith
greatest_begin-max n m (r ∷ rows) = ground (arith, greatest_begin-max n m rows)

-- The upper range begins at the least of the hard end and the ends of the accounts' ranges, and the
-- lower one ends at the greatest of their begins; accounts without a row do not count.
pub scan_bounds-extremes :
    (keys : List String) (accounts : List Account) (high low : ℕ)
    → scan_bounds keys accounts (high, low)
      ≡ ok (least_last high (present keys accounts), greatest_begin low (present keys accounts))
unfolding scan_bounds present read
scan_bounds-extremes [] accounts high low = unfold least_last greatest_begin in refl
scan_bounds-extremes (key ∷ keys) accounts high low =
    go (find acct_rows key accounts) (λ h l. scan_bounds-extremes keys accounts h l)
  where
    go :
        (row : Option Account)
        → ((h l : ℕ)
            → scan_bounds keys accounts (h, l)
              ≡ ok (least_last h (present keys accounts), greatest_begin l (present keys accounts)))
        → scan_bounds keys accounts (narrowed row (high, low))
          ≡ ok (
            least_last high
                (elim row [ none ↦ present keys accounts | some r ↦ r ∷ present keys accounts ]),
            greatest_begin low
                (elim row [ none ↦ present keys accounts | some r ↦ r ∷ present keys accounts ]),
          )
    go none ih = unfold narrowed in ih high low
    go (some r) ih =
        unfold narrowed least_last greatest_begin in
        ih (min r.last high) (max low r.begin) ∙ (λ i. ok (
          least_last-min high r.last (present keys accounts) i,
          greatest_begin-max low r.begin (present keys accounts) i,
        ))
