-- ===== src/Pool/Ranking.antt =====
-- The order of `enforce_capacity`: the proxies confirmed last come first.
use Prim.Native.Nat.{Ordering}
use proxy_switcher.Common.{
  ℕ, zero, suc, ◌≤◌, ◌≡◌, inl, inr, true, false, Option, none, some, List, [], ◌∷◌, arith, take,
  drop, Bool-cases,
}
use proxy_switcher.Common.Member.{In, drop-In}
use proxy_switcher.Pool.Discovery.{
  option_compare, then_with, not_greater, insert_sorted, sort_by, rank_order,
}
use proxy_switcher.Pool.Types.{Floats, ProxyInfo}

-- Confirmed no later; never confirmed comes first.
abbrev pub NoLater : Option ℕ → Option ℕ → Type 0
NoLater none b = Unit {0}
NoLater (some a) none = ⊥
NoLater (some a) (some b) = a ≤ b

NoLater-trans : (a b c : Option ℕ) → NoLater a b → NoLater b c → NoLater a c
NoLater-trans none b c h k = tt
NoLater-trans (some a) none c h k = absurd h
NoLater-trans (some a) (some b) none h k = absurd k
NoLater-trans (some a) (some b) (some c) h k = omega arith

NoLater-compare :
    (a b : Option ℕ) (o : Ordering)
    → not_greater (then_with (option_compare a b) o) ≡ true
    → NoLater a b
NoLater-compare none b o h = tt
NoLater-compare (some a) none o h = cc
NoLater-compare (some a) (some b) o h = ground arith

NoLater-greater :
    (a b : Option ℕ) (o : Ordering)
    → not_greater (then_with (option_compare a b) o) ≡ false
    → NoLater b a
NoLater-greater none none o h = tt
NoLater-greater none (some b) o h = cc
NoLater-greater (some a) none o h = tt
NoLater-greater (some a) (some b) o h = ground arith

module _ (fl : Floats) where
  open fl use {F}

  -- Everything in the list was confirmed no later than `p`.
  abbrev pub AllNoLater : ProxyInfo F → List (ProxyInfo F) → Type 0
  AllNoLater p [] = Unit {0}
  AllNoLater p (q ∷ qs) = NoLater q.last_success p.last_success × AllNoLater p qs

  abbrev pub Descending : List (ProxyInfo F) → Type 0
  Descending [] = Unit {0}
  Descending (p ∷ ps) = AllNoLater p ps × Descending ps

  AllNoLater-trans :
      (p q : ProxyInfo F) (qs : List (ProxyInfo F))
      → NoLater q.last_success p.last_success
      → AllNoLater q qs
      → AllNoLater p qs
  AllNoLater-trans p q [] h a = tt
  AllNoLater-trans p q (x ∷ qs) h a = (
    NoLater-trans x.last_success q.last_success p.last_success a.0 h,
    AllNoLater-trans p q qs h a.1,
  )

  AllNoLater-insert :
      (p x : ProxyInfo F) (ys : List (ProxyInfo F))
      → NoLater x.last_success p.last_success
      → AllNoLater p ys
      → AllNoLater p (insert_sorted (rank_order fl) x ys)
  unfolding insert_sorted
  AllNoLater-insert p x [] h a = (h, tt)
  AllNoLater-insert p x (y ∷ ys) h a = elim (Bool-cases (not_greater (rank_order fl x y))) [
    | inl e ↦ rw e (h, a)
    | inr e ↦ rw e (a.0, AllNoLater-insert p x ys h a.1)
  ]

  AllNoLater-In :
      (p : ProxyInfo F) (qs : List (ProxyInfo F)) (q : ProxyInfo F)
      → AllNoLater p qs
      → In q qs
      → NoLater q.last_success p.last_success
  AllNoLater-In p [] q a m = absurd m
  AllNoLater-In p (x ∷ qs) q a (inl e) = rw e a.0
  AllNoLater-In p (x ∷ qs) q a (inr m) = AllNoLater-In p qs q a.1 m

  insert_sorted-Descending :
      (x : ProxyInfo F) (ys : List (ProxyInfo F))
      → Descending ys
      → Descending (insert_sorted (rank_order fl) x ys)
  unfolding insert_sorted
  insert_sorted-Descending x [] d = (tt, tt)
  insert_sorted-Descending x (y ∷ ys) d = elim (Bool-cases (not_greater (rank_order fl x y))) [
    | inl e ↦
        let h : NoLater y.last_success x.last_success =
          unfold rank_order in NoLater-compare y.last_success x.last_success _ e in
        rw e ((h, AllNoLater-trans x y ys h d.0), d)
    | inr e ↦
        let h : NoLater x.last_success y.last_success =
          unfold rank_order in NoLater-greater y.last_success x.last_success _ e in
        rw e (AllNoLater-insert y x ys h d.0, insert_sorted-Descending x ys d.1)
  ]

  pub sort_by-Descending : (ps : List (ProxyInfo F)) → Descending (sort_by (rank_order fl) ps)
  unfolding sort_by
  sort_by-Descending [] = tt
  sort_by-Descending (p ∷ ps) =
      insert_sorted-Descending p (sort_by (rank_order fl) ps) (sort_by-Descending ps)

  -- The first entries were confirmed no earlier than the others.
  pub take-drop-NoLater :
      (n : ℕ) (ps : List (ProxyInfo F)) (p q : ProxyInfo F)
      → Descending ps
      → In p (take n ps)
      → In q (drop n ps)
      → NoLater q.last_success p.last_success
  take-drop-NoLater zero ps p q d m k = absurd m
  take-drop-NoLater (suc n) [] p q d m k = absurd m
  take-drop-NoLater (suc n) (x ∷ ps) p q d (inl e) k =
      rw e (AllNoLater-In x ps q d.0 (drop-In n ps q k))
  take-drop-NoLater (suc n) (x ∷ ps) p q d (inr m) k = take-drop-NoLater n ps p q d.1 m k
