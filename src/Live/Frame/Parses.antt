-- ===== src/Live/Frame/Parses.antt =====
-- The frames of a byte stream as a relation, and the decoder of live/codec.ts against it.
use floeterm.Common.{
  ℕ, zero, suc, ◌≤◌, ◌<◌, ◌≡◌, refl, sym, ap, ◌∙◌, ap₂, subst, List, [], ◌∷◌, ◌++◌, length, take,
  drop, Option, none, some, arith, length-drop, length-append,
}
use floeterm.Common.Fallible.{ok, err, >>=-eq-ok}
use floeterm.Live.Failure.{Failure, Outcome}
use floeterm.Live.Bytes.{Bytes, from_be}
use floeterm.Live.Frame.{Frame, next_frame, decode_rounds, settle, push}

take_within : (n : ℕ) (xs ys : Bytes) → n ≤ length xs → take n (xs ++ ys) ≡ take n xs
take_within zero xs ys h = refl
take_within (suc n) [] ys h = absurd (omega arith)
take_within (suc n) (x ∷ xs) ys h = ap (◌∷◌ x) (take_within n xs ys (omega arith))

drop_within : (n : ℕ) (xs ys : Bytes) → n ≤ length xs → drop n (xs ++ ys) ≡ drop n xs ++ ys
drop_within zero xs ys h = refl
drop_within (suc n) [] ys h = absurd (omega arith)
drop_within (suc n) (x ∷ xs) ys h = drop_within n xs ys (omega arith)

-- A complete frame is not disturbed by what follows it.
next_frame-append :
    (b c : Bytes) {f : Frame} {r : Bytes}
    → next_frame b ≡ ok (some (f, r))
    → next_frame (b ++ c) ≡ ok (some (f, r ++ c))
unfolding next_frame
next_frame-append (t ∷ fl ∷ r0 ∷ r1 ∷ l0 ∷ l1 ∷ l2 ∷ l3 ∷ rest) c {f} {r} h =
    let n = from_be 0 (l0 ∷ l1 ∷ l2 ∷ l3 ∷ []) in
    ground (arith, take_within n rest c, drop_within n rest c, length-append rest c)
next_frame-append _ c h = cc

-- Nor does a bad header become good.
next_frame-append_err :
    (b c : Bytes) {e : Failure} → next_frame b ≡ err e → next_frame (b ++ c) ≡ err e
unfolding next_frame
next_frame-append_err (t ∷ fl ∷ r0 ∷ r1 ∷ l0 ∷ l1 ∷ l2 ∷ l3 ∷ rest) c {e} h = ground arith
next_frame-append_err _ c h = cc

next_frame_shorter :
    (b : Bytes) {f : Frame} {r : Bytes} → next_frame b ≡ ok (some (f, r)) → length r < length b
unfolding next_frame
next_frame_shorter (t ∷ fl ∷ r0 ∷ r1 ∷ l0 ∷ l1 ∷ l2 ∷ l3 ∷ rest) {f} {r} h =
    let n = from_be 0 (l0 ∷ l1 ∷ l2 ∷ l3 ∷ []) in ground (arith, length-drop n rest)
next_frame_shorter _ h = cc

-- The frames of a buffer and the bytes that are left, as a relation.
pub data Parses : Bytes → List Frame → Bytes → Type 0 where
  done : {b last : Bytes} → next_frame b ≡ ok none → b ≡ last → Parses b [] last
  more :
      {b rest last : Bytes} {f : Frame} {fs : List Frame}
      → next_frame b ≡ ok (some (f, rest))
      → Parses rest fs last
      → Parses b (f ∷ fs) last

pub Parses-append :
    {a : Bytes} {fs : List Frame} {r : Bytes} (c : Bytes) {gs : List Frame} {s : Bytes}
    → Parses a fs r
    → Parses (r ++ c) gs s
    → Parses (a ++ c) (fs ++ gs) s
Parses-append c {gs} {s} (done e q) k = subst (λ x. Parses (x ++ c) gs s) (sym q) k
Parses-append c (more e p) k = more (next_frame-append _ c e) (Parses-append c p k)

pub next_frame-empty : (b : Bytes) → length b ≤ 0 → next_frame b ≡ ok none
unfolding next_frame
next_frame-empty [] h = refl
next_frame-empty (x ∷ b) h = absurd (omega arith)

Parses-of_eq :
    {b : Bytes} {fs gs : List Frame} {r s : Bytes}
    → ◌≡◌ {A = Outcome (List Frame × Bytes)} (ok (fs, r)) (ok (gs, s))
    → Parses b fs r
    → Parses b gs s
Parses-of_eq {b} {fs} {gs} {r} {s} e p =
    let frames : fs ≡ gs = cc in
    let left : r ≡ s = cc in subst (λ x. Parses b gs x) left (subst (λ x. Parses b x r) frames p)

decode_rounds-Parses :
    (n : ℕ) (b : Bytes) {fs : List Frame} {last : Bytes}
    → length b ≤ n
    → decode_rounds n b ≡ ok (fs, last)
    → Parses b fs last
unfolding decode_rounds
decode_rounds-Parses zero b {fs} {last} h e = Parses-of_eq e (done (next_frame-empty b h) refl)
decode_rounds-Parses (suc n) b {fs} {last} h e =
    go (next_frame b) refl (λ r gs s. decode_rounds-Parses n r {fs = gs} {last = s})
  where
    go :
        (o : Outcome (Option (Frame × Bytes)))
        → next_frame b ≡ o
        → ((r : Bytes) (gs : List Frame) (s : Bytes)
            → length r ≤ n
            → decode_rounds n r ≡ ok (gs, s)
            → Parses r gs s)
        → Parses b fs last
    go (err x) q ih = let failed = rw (q, decode_rounds) at e in cc
    go (ok none) q ih = Parses-of_eq (rw (q, decode_rounds) at e) (done q refl)
    go (ok (some (f, rest))) q ih =
        let (r, found, joined) = >>=-eq-ok (decode_rounds n rest) _ (rw (q, decode_rounds) at e) in
        Parses-of_eq joined (more q (ih rest _ _ (omega (arith, next_frame_shorter b q)) found))

-- The rounds suffice: a parse is what the loop computes.
Parses-decode_rounds :
    {b : Bytes} {fs : List Frame} {last : Bytes} (n : ℕ)
    → length b ≤ n
    → Parses b fs last
    → decode_rounds n b ≡ ok (fs, last)
unfolding decode_rounds
Parses-decode_rounds zero h (done e q) = ap (λ (x : Bytes). ok ([], x)) q
Parses-decode_rounds zero h (more {b} e p) = absurd (omega (arith, next_frame_shorter b e))
Parses-decode_rounds (suc n) h (done {b} e q) =
    rw (e, decode_rounds) (ap (λ (x : Bytes). ok ([], x)) q)
Parses-decode_rounds (suc n) h (more {b} e p) =
    rw (e, decode_rounds) (rw (Parses-decode_rounds n (omega (arith, next_frame_shorter b e)) p))

Parses-more :
    {x : Bytes} {hs : List Frame} {s : Bytes} (f : Frame) (r : Bytes)
    → Parses x hs s
    → next_frame x ≡ ok (some (f, r))
    → (gs : List Frame) × (hs ≡ f ∷ gs) × Parses r gs s
Parses-more f r (done e q) h = let clash = sym e ∙ h in cc
Parses-more f r (more {b = x} {rest = rest} {last = last} {f = g} {fs = gs} e p) h =
    let same = sym e ∙ h in
    let head : g ≡ f = cc in
    let tail : rest ≡ r = cc in (gs, ap (λ y. y ∷ gs) head, subst (λ y. Parses y gs last) tail p)

pub Parses-none :
    {x : Bytes} {hs : List Frame} {s : Bytes}
    → Parses x hs s
    → next_frame x ≡ ok none
    → (hs ≡ []) × (x ≡ s)
Parses-none (done e q) h = (refl, q)
Parses-none (more e p) h = let clash = sym e ∙ h in cc

Parses-err :
    {x : Bytes} {hs : List Frame} {s : Bytes} {e : Failure}
    → Parses x hs s
    → next_frame x ≡ err e
    → ⊥
Parses-err (done e q) h = let clash = sym e ∙ h in cc
Parses-err (more e p) h = let clash = sym e ∙ h in cc

-- A parse of a joined stream goes through every cut.
abbrev pub Split : Bytes → Bytes → List Frame → Bytes → Type 0
Split b c hs s =
    (fs : List Frame) × (r : Bytes) × (gs : List Frame) × Parses b fs r
    × Parses (r ++ c) gs s
    × (hs ≡ fs ++ gs)

pub Parses-Split :
    (n : ℕ) (b c : Bytes) (hs : List Frame) (s : Bytes)
    → length b ≤ n
    → Parses (b ++ c) hs s
    → Split b c hs s
Parses-Split zero b c hs s h p = ([], b, hs, done (next_frame-empty b h) refl, p, refl)
Parses-Split (suc n) b c hs s h p = go (next_frame b) refl (Parses-Split n)
  where
    go :
        (o : Outcome (Option (Frame × Bytes)))
        → next_frame b ≡ o
        → ((b1 c1 : Bytes) (hs1 : List Frame) (s1 : Bytes)
            → length b1 ≤ n
            → Parses (b1 ++ c1) hs1 s1
            → Split b1 c1 hs1 s1)
        → Split b c hs s
    go (err x) q ih = absurd (Parses-err p (next_frame-append_err b c q))
    go (ok none) q ih = ([], b, hs, done q refl, p, refl)
    go (ok (some (f, rest))) q ih =
        let (gs, first, later) = Parses-more f (rest ++ c) p (next_frame-append b c q) in
        let (fs, r, ks, here, there, cut) =
          ih rest c gs s (omega (arith, next_frame_shorter b q)) later in
        (f ∷ fs, r, ks, more q here, there, first ∙ ap (◌∷◌ f) cut)

pub Parses-drained :
    {b : Bytes} {fs : List Frame} {last : Bytes} → Parses b fs last → next_frame last ≡ ok none
Parses-drained (done e q) = subst (λ x. next_frame x ≡ ok none) q e
Parses-drained (more e p) = Parses-drained p

pub Parses-push :
    (b c : Bytes) {fs : List Frame} {r : Bytes} → Parses (b ++ c) fs r → push b c ≡ (ok fs, r)
unfolding push
Parses-push b c p = rw (Parses-decode_rounds (length (b ++ c)) (omega arith) p)

settle-eq :
    (j : Bytes) (o : Outcome (List Frame × Bytes)) {fs : List Frame} {r : Bytes}
    → settle j o ≡ (ok fs, r)
    → o ≡ ok (fs, r)
unfolding settle
settle-eq j (ok (gs, s)) {fs} {r} h =
    let frames : gs ≡ fs = cc in
    let left : s ≡ r = cc in ap₂ (λ (x : List Frame) (y : Bytes). ok (x, y)) frames left
settle-eq j (err e) {fs} {r} h = cc

pub push-Parses :
    (b c : Bytes) {fs : List Frame} {r : Bytes} → push b c ≡ (ok fs, r) → Parses (b ++ c) fs r
unfolding push
push-Parses b c {fs} {r} h =
    decode_rounds-Parses (length (b ++ c)) (b ++ c) (omega arith) (settle-eq (b ++ c) _ h)
