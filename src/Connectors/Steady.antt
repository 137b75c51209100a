-- ===== src/Connectors/Steady.antt =====
-- Sockets that take and give bytes without pause, under the stream of proxy/connector/shadowsocks.rs.
use mathlib.Core.List.{append_assoc, append-nil}
use proxy_switcher.Common.{
  ℕ, zero, suc, ◌+◌, ◌-◌, ◌≤◌, ◌<◌, ◌≡◌, inl, inr, refl, sym, ap, ◌∙◌, false, List, [], ◌∷◌, ◌++◌,
  arith, ltb, ◌==◌, length, length-append, length-drop, take, drop, take-append-drop, Bool-cases,
  take-append, drop-append,
}
use proxy_switcher.Common.Outcome.{Bytes}
use proxy_switcher.Connectors.Chunks.{
  Accept, takes, takes_later, takes_no_more, sent_all, send, Arrival, arrives, arrives_later,
  arrives_no_more, full, gather, take_exact,
}

-- The socket takes a byte at least, each time.
abbrev pub TakesAll : List Accept → Type 0
TakesAll [] = Unit {0}
TakesAll (takes n ∷ answers) = (0 < n) × TakesAll answers
TakesAll (takes_later ∷ answers) = ⊥
TakesAll (takes_no_more ∷ answers) = ⊥

-- Each answer to a read has a byte at least.
abbrev pub AllArrive : List Arrival → Type 0
AllArrive [] = Unit {0}
AllArrive (arrives piece ∷ arrivals) = (0 < length piece) × AllArrive arrivals
AllArrive (arrives_later ∷ arrivals) = ⊥
AllArrive (arrives_no_more ∷ arrivals) = ⊥

abbrev pub flat : List Arrival → Bytes
flat [] = []
flat (arrives piece ∷ arrivals) = piece ++ flat arrivals
flat (arrives_later ∷ arrivals) = flat arrivals
flat (arrives_no_more ∷ arrivals) = flat arrivals

-- A framed chunk goes out whole, where there are as many answers as it has bytes.
pub send_whole :
    (answers : List Accept) (bytes : Bytes)
    → TakesAll answers
    → length bytes ≤ length answers
    → (rest : List Accept) × (send answers bytes ≡ sent_all bytes rest)
      × TakesAll rest
      × (length answers ≤ length rest + length bytes)
unfolding send
send_whole [] [] t l = ([], refl, tt, omega arith)
send_whole [] (b ∷ bs) t l = absurd (omega (arith, l))
send_whole (takes n ∷ answers) [] t l = (takes n ∷ answers, refl, t, omega arith)
send_whole (takes n ∷ answers) (b ∷ bs) (pos, t) l =
    let (rest, e, t', l') =
      send_whole answers (drop n (b ∷ bs)) t (omega (arith, l, pos, length-drop n (b ∷ bs))) in
    let some_taken : (n == 0) ≡ false = ground (arith, pos) in
    (
      rest,
      rw (some_taken, e, send) (ap (λ out. sent_all out rest) (take-append-drop n (b ∷ bs))),
      t',
      omega (arith, l', pos, length-drop n (b ∷ bs)),
    )
send_whole (takes_later ∷ answers) bytes t l = absurd t
send_whole (takes_no_more ∷ answers) bytes t l = absurd t

take-front : (n : ℕ) (xs ys : Bytes) → n ≤ length xs → take n (xs ++ ys) ≡ take n xs
take-front zero xs ys h = ground arith
take-front (suc n) [] ys h = absurd (omega (arith, h))
take-front (suc n) (x ∷ xs) ys h = ap (◌∷◌ x) (take-front n xs ys (omega (arith, h)))

drop-front : (n : ℕ) (xs ys : Bytes) → n ≤ length xs → drop n (xs ++ ys) ≡ drop n xs ++ ys
drop-front zero xs ys h = ground arith
drop-front (suc n) [] ys h = absurd (omega (arith, h))
drop-front (suc n) (x ∷ xs) ys h = drop-front n xs ys (omega (arith, h))

take-past :
    (n : ℕ) (xs ys : Bytes) → length xs ≤ n → take n (xs ++ ys) ≡ xs ++ take (n - length xs) ys
take-past n [] ys h = let e : n - 0 ≡ n = omega arith in ap (λ k. take k ys) (sym e)
take-past zero (x ∷ xs) ys h = absurd (omega (arith, h))
take-past (suc n) (x ∷ xs) ys h =
    let e : suc n - suc (length xs) ≡ n - length xs = omega arith in
    ap (◌∷◌ x) (take-past n xs ys (omega (arith, h)) ∙ ap (λ k. xs ++ take k ys) (sym e))

drop-past : (n : ℕ) (xs ys : Bytes) → length xs ≤ n → drop n (xs ++ ys) ≡ drop (n - length xs) ys
drop-past n [] ys h = let e : n - 0 ≡ n = omega arith in ap (λ k. drop k ys) (sym e)
drop-past zero (x ∷ xs) ys h = absurd (omega (arith, h))
drop-past (suc n) (x ∷ xs) ys h =
    let e : suc n - suc (length xs) ≡ n - length xs = omega arith in
    drop-past n xs ys (omega (arith, h)) ∙ ap (λ k. drop k ys) (sym e)

-- A read of so many bytes comes out full where they arrive, and leaves the others.
pub gather-flat :
    (arrivals : List Arrival) (n : ℕ) (got : Bytes)
    → AllArrive arrivals
    → n ≤ length (flat arrivals)
    → (rest : List Arrival) × (gather arrivals n got ≡ full (got ++ take n (flat arrivals)) rest)
      × AllArrive rest
      × (flat rest ≡ drop n (flat arrivals))
unfolding gather
gather-flat [] zero got t l = ([], ap (λ out. full out []) (sym (append-nil got)), tt, refl)
gather-flat [] (suc n) got t l = absurd (omega (arith, l))
gather-flat (arrives piece ∷ arrivals) zero got t l = (
  arrives piece ∷ arrivals,
  ap (λ out. full out (arrives piece ∷ arrivals)) (sym (append-nil got)),
  t,
  refl,
)
gather-flat (arrives [] ∷ arrivals) (suc n) got (pos, t) l = absurd (omega (arith, pos))
gather-flat (arrives (b ∷ bs) ∷ arrivals) (suc n) got (pos, t) l =
    let piece = b ∷ bs in
    let more = flat arrivals in
    let left = suc n - length piece in
    elim (Bool-cases (ltb (suc n) (length piece))) [
      | inl h ↦
          let fits : suc n ≤ length piece = ground (arith, h) in
          (
            arrives (drop (suc n) piece) ∷ arrivals,
            rw (h, gather)
                (ap (λ out. full (got ++ out) (arrives (drop (suc n) piece) ∷ arrivals))
                  (sym (take-front (suc n) piece more fits))),
            (ground (arith, h, length-drop (suc n) piece), t),
            sym (drop-front (suc n) piece more fits),
          )
      | inr h ↦
          let past : length piece ≤ suc n = ground (arith, h) in
          let enough : left ≤ length more = omega (arith, l, length-append piece more, past) in
          let (rest, g, t', e) = gather-flat arrivals left (got ++ piece) t enough in
          (
            rest,
            rw (h, g, gather)
                (ap (λ out. full out rest)
                  (append_assoc got piece (take left more)
                    ∙ ap (λ out. got ++ out) (sym (take-past (suc n) piece more past)))),
            t',
            e ∙ sym (drop-past (suc n) piece more past),
          )
    ]
gather-flat (arrives_later ∷ arrivals) n got t l = absurd t
gather-flat (arrives_no_more ∷ arrivals) n got t l = absurd t

pub take_exact-flat :
    (n : ℕ) (xs ys : Bytes) (arrivals : List Arrival)
    → length xs ≡ n
    → AllArrive arrivals
    → flat arrivals ≡ xs ++ ys
    → (rest : List Arrival) × (take_exact n arrivals ≡ full xs rest)
      × AllArrive rest
      × (flat rest ≡ ys)
take_exact-flat n xs ys arrivals e t same =
    let enough : n ≤ length (flat arrivals) =
      omega (arith, ap length same, length-append xs ys, e) in
    let (rest, g, t', left) = gather-flat arrivals n [] t enough in
    (
      rest,
      g
          ∙ ap (λ out. full out rest)
              (ap (take n) same ∙ ap (λ k. take k (xs ++ ys)) (sym e) ∙ take-append xs ys),
      t',
      left ∙ ap (drop n) same ∙ ap (λ k. drop k (xs ++ ys)) (sym e) ∙ drop-append xs ys,
    )

pub none_arrive :
    (arrivals : List Arrival) → AllArrive arrivals → flat arrivals ≡ [] → arrivals ≡ []
none_arrive [] t e = refl
none_arrive (arrives [] ∷ arrivals) (pos, t) e = absurd (omega (arith, pos))
none_arrive (arrives (b ∷ bs) ∷ arrivals) t e = absurd (cc e)
none_arrive (arrives_later ∷ arrivals) t e = absurd t
none_arrive (arrives_no_more ∷ arrivals) t e = absurd t

-- Bytes that arrive in pieces of these sizes, each at least one, and then the rest at once.
abbrev pub in_pieces : List ℕ → Bytes → List Arrival
in_pieces [] [] = []
in_pieces [] (b ∷ bs) = arrives (b ∷ bs) ∷ []
in_pieces (k ∷ ks) [] = []
in_pieces (k ∷ ks) (b ∷ bs) = arrives (b ∷ take k bs) ∷ in_pieces ks (drop k bs)

pub in_pieces-AllArrive : (ks : List ℕ) (bytes : Bytes) → AllArrive (in_pieces ks bytes)
in_pieces-AllArrive [] [] = tt
in_pieces-AllArrive [] (b ∷ bs) = (omega arith, tt)
in_pieces-AllArrive (k ∷ ks) [] = tt
in_pieces-AllArrive (k ∷ ks) (b ∷ bs) = (omega arith, in_pieces-AllArrive ks (drop k bs))

pub flat-in_pieces : (ks : List ℕ) (bytes : Bytes) → flat (in_pieces ks bytes) ≡ bytes
flat-in_pieces [] [] = refl
flat-in_pieces [] (b ∷ bs) = append-nil (b ∷ bs)
flat-in_pieces (k ∷ ks) [] = refl
flat-in_pieces (k ∷ ks) (b ∷ bs) =
    ap (λ more. b ∷ (take k bs ++ more)) (flat-in_pieces ks (drop k bs))
    ∙ ap (◌∷◌ b) (take-append-drop k bs)
