-- ===== src/Dns/Plain.antt =====
-- A name that is written without compression is decoded as it is.
use Prim.Native.Nat.{bit_and}
use proxy_switcher.Common.{
  ℕ, zero, suc, ◌+◌, ◌<◌, ◌≡◌, refl, sym, ap, subst, ◌∙◌, false, none, some, List, [], ◌∷◌, ◌++◌,
  arith, length, length-append, get_elem?, take, drop, ltb, leb, ◌==◌,
}
use mathlib.Core.List.{append_assoc, append-nil}
use proxy_switcher.Common.Bits.{above_six}
use proxy_switcher.Common.Outcome.{ok, Bytes, byte_at, ◌>>=◌}
use proxy_switcher.Common.Text.{Text}
use proxy_switcher.Dns.Names.{utf8_from, from_utf8, join_dots, name_loop, decode_name}

-- A label as it goes on the wire: its bytes are ASCII, and its length is from 1 to 63.
abbrev pub AreAscii : Text → Type 0
AreAscii [] = Unit {0}
AreAscii (c ∷ t) = (c < 128) × AreAscii t

abbrev pub AreLabels : List Text → Type 0
AreLabels [] = Unit {0}
AreLabels (t ∷ ts) = (0 < length t) × (length t < 64) × AreAscii t × AreLabels ts

-- The labels with their lengths, and the root behind them.
abbrev pub wire : List Text → Bytes
wire [] = 0 ∷ []
wire (t ∷ ts) = length t ∷ (t ++ wire ts)

from_utf8-ascii : (t : Text) → AreAscii t → utf8_from 0 0 0 t ≡ some t
unfolding utf8_from
from_utf8-ascii [] a = refl
from_utf8-ascii (c ∷ t) a = ground (arith, from_utf8-ascii t a.1)

no_pointer : (n : ℕ) → n < 64 → (bit_and n 0xc0 == 0xc0) ≡ false
no_pointer n h = rw (above_six n h) refl

-- What stands at a place, given what is behind it.
drop-cons :
    (d : Bytes) (n : ℕ) (x : ℕ) (xs : Bytes)
    → drop n d ≡ x ∷ xs
    → (get_elem? d n ≡ some x) × (drop (n + 1) d ≡ xs) × (length d ≡ n + 1 + length xs)
drop-cons [] zero x xs e = cc
drop-cons [] (suc n) x xs e = cc
drop-cons (y ∷ d) zero x xs e = ground arith
drop-cons (y ∷ d) (suc n) x xs e =
    let (there, behind, size) = drop-cons d n x xs e in
    let next : suc (n + 1) ≡ suc n + 1 = omega arith in
    (there, subst (λ k. drop k (y ∷ d) ≡ xs) next behind, omega (arith, size))

take-prefix : (t rest : Bytes) → take (length t) (t ++ rest) ≡ t
take-prefix [] rest = refl
take-prefix (c ∷ t) rest = ap (◌∷◌ c) (take-prefix t rest)

drop-prefix :
    (d : Bytes) (n : ℕ) (t rest : Bytes) → drop n d ≡ t ++ rest → drop (n + length t) d ≡ rest
drop-prefix d n [] rest e = subst (λ k. drop k d ≡ rest) (omega arith) e
drop-prefix d n (c ∷ t) rest e =
    let (_, behind, _) = drop-cons d n c (t ++ rest) e in
    subst (λ k. drop k d ≡ rest) (omega arith) (drop-prefix d (n + 1) t rest behind)

module _ (d : Bytes) where
  -- The round that ends at the root.
  name_loop-root :
      (fuel n : ℕ) (labels : List Text) (rest : Bytes)
      → drop n d ≡ 0 ∷ rest
      → name_loop d (suc fuel) labels n none ≡ ok (some (labels, n + 1))
  unfolding name_loop byte_at ◌>>=◌
  name_loop-root fuel n labels rest e =
      let (there, _, size) = drop-cons d n 0 rest e in ground (arith, there, size)

  -- The round that reads one label.
  name_loop-label :
      (fuel n : ℕ) (labels : List Text) (t : Text) (rest : Bytes)
      → 0 < length t
      → length t < 64
      → AreAscii t
      → drop n d ≡ length t ∷ (t ++ rest)
      → name_loop d (suc fuel) labels n none
        ≡ name_loop d fuel (labels ++ t ∷ []) (n + 1 + length t) none
  unfolding name_loop byte_at ◌>>=◌ from_utf8
  name_loop-label fuel n labels t rest some_bytes few ascii e =
      let (there, behind, size) = drop-cons d n (length t) (t ++ rest) e in
      let read : take (length t) (drop (n + 1) d) ≡ t =
        ap (take (length t)) behind ∙ take-prefix t rest in
      let is_text : utf8_from 0 0 0 (take (length t) (drop (n + 1) d)) ≡ some t =
        ap (utf8_from 0 0 0) read ∙ from_utf8-ascii t ascii in
      let inside : leb (length d) n ≡ false = ground (arith, size) in
      let fits : ltb (length d) (n + 1 + length t) ≡ false =
        ground (arith, size, length-append t rest) in
      let full : (length t == 0) ≡ false = ground arith in
      rw (inside, byte_at, there) (rw (full, no_pointer (length t) few, fits) (rw is_text refl))

  name_loop-wire :
      (ts : List Text) (fuel n : ℕ) (labels : List Text) (rest : Bytes)
      → AreLabels ts
      → length ts < fuel
      → drop n d ≡ wire ts ++ rest
      → name_loop d fuel labels n none ≡ ok (some (labels ++ ts, n + length (wire ts)))
  name_loop-wire ts zero n labels rest a more e = absurd (omega arith)
  name_loop-wire [] (suc fuel) n labels rest a more e =
      name_loop-root fuel n labels rest e
      ∙ ap (λ ls. ok (some (ls, n + 1))) (sym (append-nil labels))
  name_loop-wire (t ∷ ts) (suc fuel) n labels rest (some_bytes, few, ascii, a) more e =
      let e' : drop n d ≡ length t ∷ (t ++ (wire ts ++ rest)) =
        e ∙ ap (◌∷◌ (length t)) (append_assoc t (wire ts) rest) in
      let (_, behind, _) = drop-cons d n (length t) (t ++ (wire ts ++ rest)) e' in
      let there = drop-prefix d (n + 1) t (wire ts ++ rest) behind in
      let size : n + 1 + length t + length (wire ts) ≡ n + length (wire (t ∷ ts)) =
        omega (arith, length-append t (wire ts)) in
      name_loop-label fuel n labels t (wire ts ++ rest) some_bytes few ascii e'
      ∙ name_loop-wire ts fuel (n + 1 + length t) (labels ++ t ∷ []) rest a (omega arith) there
      ∙ ap (λ ls. ok (some (ls, n + 1 + length t + length (wire ts))))
          (append_assoc labels (t ∷ []) ts)
      ∙ ap (λ k. ok (some (labels ++ t ∷ ts, k))) size

  -- A name that is written label by label, without compression, is decoded to its labels with dots
  -- between them, and the offset that is returned is the one behind the name. The labels are ASCII
  -- and have from 1 to 63 bytes; a fuel of one more than there are labels is enough.
  pub decode_name-wire :
      (t : Text) (ts : List Text) (fuel start : ℕ) (rest : Bytes)
      → AreLabels (t ∷ ts)
      → length (t ∷ ts) < fuel
      → drop start d ≡ wire (t ∷ ts) ++ rest
      → decode_name fuel d start ≡ ok (some (join_dots (t ∷ ts), start + length (wire (t ∷ ts))))
  unfolding decode_name
  decode_name-wire t ts fuel start rest a more e =
      rw (name_loop-wire (t ∷ ts) fuel start [] rest a more e) refl
