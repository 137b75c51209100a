-- ===== src/Pool/Rotation.antt =====
-- `rotate` goes round the whole pool.
use native.Mathlib.Nat.{mod-eq_of_lt, mod-add-mod, add-mod_right}
use proxy_switcher.Common.{
  ℕ, zero, suc, ◌+◌, ◌-◌, ◌%◌, ◌<◌, ◌≡◌, inl, inr, refl, sym, ap, ◌∙◌, false, some, arith, length,
  get_elem?, ◌==◌, ltb, Bool-cases,
}
use proxy_switcher.Pool.Select.{rotate}
use proxy_switcher.Pool.State.{PoolInner}

rounds : (i j l : ℕ) → i < l → j < l → (n : ℕ) × (n < l) × ((i + suc n) % l ≡ j)
rounds i j l h k = elim (Bool-cases (ltb i j)) [
  | inl e ↦ (j - i - 1, ground arith, ap (λ m. m % l) (ground arith) ∙ mod-eq_of_lt k)
  | inr e ↦ (
    j + l - i - 1,
    ground arith,
    ap (λ m. m % l) (ground arith) ∙ add-mod_right j l ∙ mod-eq_of_lt k,
  )
]

module _ {F : Type 0} where
  -- The pool behind a number of rotations.
  unfoldable pub rotated : ℕ → PoolInner F → PoolInner F
  unfolding rotate
  rotated zero inner = inner
  rotated (suc n) inner = (rotate (rotated n inner)).0

  rotate-place :
      (i : ℕ) (inner : PoolInner F)
      → inner.active_index ≡ some i
      → 0 < length inner.proxies
      → ((rotate inner).0.active_index ≡ some ((i + 1) % length inner.proxies))
        × ((rotate inner).0.proxies ≡ inner.proxies)
        × ((rotate inner).1 ≡ get_elem? inner.proxies ((i + 1) % length inner.proxies))
  unfolding rotate
  rotate-place i inner e h =
      let full : (length inner.proxies == 0) ≡ false = ground arith in
      rw (full, e, rotate) (refl, refl, refl)

  rotated-place :
      (n i : ℕ) (inner : PoolInner F)
      → inner.active_index ≡ some i
      → i < length inner.proxies
      → ((rotated n inner).active_index ≡ some ((i + n) % length inner.proxies))
        × ((rotated n inner).proxies ≡ inner.proxies)
  unfolding rotated
  rotated-place zero i inner e h =
      (e ∙ ap some (sym (mod-eq_of_lt h) ∙ ap (λ k. k % length inner.proxies) (omega arith)), refl)
  rotated-place (suc n) i inner e h =
      let (place, same) = rotated-place n i inner e h in
      let size : length (rotated n inner).proxies ≡ length inner.proxies = ap length same in
      let (next, same', _) =
        rotate-place ((i + n) % length inner.proxies) (rotated n inner) place (omega arith) in
      let wrapped : ((i + n) % length inner.proxies + 1) % length inner.proxies
          ≡ (i + suc n) % length inner.proxies =
        mod-add-mod (i + n) (length inner.proxies) 1
        ∙ ap (λ k. k % length inner.proxies) (omega arith) in
      (
        next ∙ ap (λ l. some (((i + n) % length inner.proxies + 1) % l)) size ∙ ap some wrapped,
        same' ∙ same,
      )

  -- From an active proxy, rotating reaches every place of the pool within as many rotations as it
  -- has proxies, and as many bring the same proxy back; the proxies stay as they are.
  pub rotated-round :
      (i j : ℕ) (inner : PoolInner F)
      → inner.active_index ≡ some i
      → i < length inner.proxies
      → j < length inner.proxies
      → ((n : ℕ) × (n < length inner.proxies) × ((rotated (suc n) inner).active_index ≡ some j))
        × ((rotated (length inner.proxies) inner).active_index ≡ some i)
        × ((rotated (length inner.proxies) inner).proxies ≡ inner.proxies)
  rotated-round i j inner e h k =
      let (n, less, there) = rounds i j (length inner.proxies) h k in
      let (back, same) = rotated-place (length inner.proxies) i inner e h in
      (
        (n, less, (rotated-place (suc n) i inner e h).0 ∙ ap some there),
        back ∙ ap some (add-mod_right i (length inner.proxies) ∙ mod-eq_of_lt h),
        same,
      )
