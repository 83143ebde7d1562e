-- ===== src/World/Books/Pages.antt =====
-- Events of internal/biz/core.go returns a page of a role's log.
use xiuxian.Base.{
  ◌⊎◌, dec_lt, ℕ, zero, suc, ◌≢◌, ◌+◌, ◌-◌, ◌<◌, ◌≡◌, refl, ap, sym, ◌∙◌, inl, inr, List, [], ◌∷◌,
  ◌++◌, length, take, arith, if◌then◌else◌, Bool-cases, ◌==◌, length-append, ==_iff,
}
use mathlib.Core.List.{append_assoc, append-nil}
use xiuxian.Base.Int.{ℤ, pos, negsuc, pos_part, leb_ℤ, ◌≤ℤ◌, ◌<ℤ◌, int_laws}
use xiuxian.World.Host.{Host}
use xiuxian.World.Model.{Event}
use xiuxian.World.Accounts.{page_limit, page}

module _ (host : Host) where
  -- The events of a log with numbers above `after`.
  abbrev pub later : ℤ → List (Event host.float.F) → List (Event host.float.F)
  later after [] = []
  later after (e ∷ es) = if leb_ℤ (pos e.id) after then later after es else e ∷ later after es

  take_nil : (n : ℕ) → ◌≡◌ {A = List (Event host.float.F)} (take n []) []
  take_nil zero = refl
  take_nil (suc n) = refl

  minus_zero : (n : ℕ) → n - 0 ≡ n
  minus_zero n = omega arith

  one_left : (limit n : ℕ) → limit ≡ n + 1 → 1 ≡ limit - n
  one_left limit n e = omega arith

  more_left : (limit n m : ℕ) → m ≡ n + 1 → m < limit → suc (limit - m) ≡ limit - n
  more_left limit n m e h = omega arith

  page_limit-pos : (limit : ℤ) → 0 < page_limit host limit
  unfolding page_limit
  page_limit-pos limit = ground arith

  page-later :
      (limit : ℕ) (after : ℤ) (taken es : List (Event host.float.F))
      → length taken < limit
      → page host limit after taken es ≡ taken ++ take (limit - length taken) (later after es)
  unfolding page
  page-later limit after taken [] h =
      sym (ap (λ l. taken ++ l) (take_nil (limit - length taken)) ∙ append-nil taken)
  page-later limit after taken (e ∷ es) h = elim (Bool-cases (leb_ℤ (pos e.id) after)) [
    | inl old ↦ rw (old, page) (page-later limit after taken es h)
    | inr new ↦ elim (Bool-cases (length (taken ++ e ∷ []) == limit)) [
      | inl full ↦
          let size : limit ≡ length taken + 1 =
            sym ((==_iff (length (taken ++ e ∷ [])) limit).0 full) ∙ length-append taken (e ∷ []) in
          rw (new, full, page)
            (ap (λ n. taken ++ take n (e ∷ later after es)) (one_left limit (length taken) size))
      | inr room ↦
          let l = length-append taken (e ∷ []) in
          let ne : limit ≢ length taken + 1 =
            λ same. cc ((==_iff (length (taken ++ e ∷ [])) limit).1 (l ∙ sym same)) in
          rw (new, room, page)
            (page-later limit after (taken ++ e ∷ []) es (omega arith)
              ∙ append_assoc taken (e ∷ []) _
              ∙ ap (λ n. taken ++ take n (e ∷ later after es))
                  (more_left limit (length taken) (length (taken ++ e ∷ [])) l (omega arith)))
    ]
  ]

  pub page-take :
      (limit after : ℤ) (log : List (Event host.float.F))
      → page host (page_limit host limit) after [] log
        ≡ take (page_limit host limit) (later after log)
  page-take limit after log =
      page-later (page_limit host limit) after [] log (page_limit-pos limit)
      ∙ ap (λ n. take n (later after log)) (minus_zero (page_limit host limit))

  limit_cases :
      (limit : ℤ)
      → (((pos 1 ≤ℤ limit) × (limit ≤ℤ pos 100)) × (page_limit host limit ≡ pos_part limit))
        ⊎ (((limit <ℤ pos 1) ⊎ (pos 100 <ℤ limit)) × (page_limit host limit ≡ 50))
  unfolding page_limit
  limit_cases (pos n) = elim (dec_lt n 1) [
    | yes small ↦ inr (inl (omega int_laws), ground arith)
    | no large ↦ elim (dec_lt 100 n) [
      | yes huge ↦ inr (inr (omega int_laws), ground arith)
      | no fits ↦ inl ((omega int_laws, omega int_laws), ground arith)
    ]
  ]
  limit_cases (negsuc n) = inr (inl (omega int_laws), ground arith)

  -- A page of Events holds the first events of the log with numbers above `after`: as many as the
  -- limit asks for, if that is from 1 to 100, or else 50; or all if there are fewer.
  pub page_lem :
      (limit after : ℤ) (log : List (Event host.float.F))
      → let got = page host (page_limit host limit) after [] log in
        (((pos 1 ≤ℤ limit) × (limit ≤ℤ pos 100)) × (got ≡ take (pos_part limit) (later after log)))
        ⊎ (((limit <ℤ pos 1) ⊎ (pos 100 <ℤ limit)) × (got ≡ take 50 (later after log)))
  page_lem limit after log = elim (limit_cases limit) [
    | inl (asked, size) ↦
        inl (asked, page-take limit after log ∙ ap (λ n. take n (later after log)) size)
    | inr (other, size) ↦
        inr (other, page-take limit after log ∙ ap (λ n. take n (later after log)) size)
  ]
