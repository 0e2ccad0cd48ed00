-- ===== src/Pipeline/Output.antt =====
-- TerminalOutputPipeline.ts: the bytes that have been written, and lists cut in two.
use floeterm.Common.{
  ℕ, zero, suc, ◌≤◌, ◌≡◌, refl, sym, ap, ◌∙◌, Bool, true, false, not, List, [], ◌∷◌, ◌++◌, take,
  drop, arith, append_assoc,
}
use floeterm.Pipeline.State.{
  Chunk, Effect, written, catch_up_requested, drained, frame_requested, frame_canceled, is_empty,
  concat_chunks,
}

-- The bytes that the log's writes carry, in order.
unfoldable pub output : List Effect → List ℕ
output [] = []
output (written payload batch ∷ log) = payload ++ output log
output (catch_up_requested request ∷ log) = output log
output (drained ∷ log) = output log
output (frame_requested ∷ log) = output log
output (frame_canceled ∷ log) = output log

pub output-append : (xs ys : List Effect) → output (xs ++ ys) ≡ output xs ++ output ys
unfolding output
output-append [] ys = refl
output-append (written payload batch ∷ xs) ys =
    ap (λ o. payload ++ o) (output-append xs ys)
    ∙ sym (append_assoc payload (output xs) (output ys))
output-append (catch_up_requested r ∷ xs) ys = output-append xs ys
output-append (drained ∷ xs) ys = output-append xs ys
output-append (frame_requested ∷ xs) ys = output-append xs ys
output-append (frame_canceled ∷ xs) ys = output-append xs ys

pub concat_chunks-append :
    (xs ys : List Chunk) → concat_chunks (xs ++ ys) ≡ concat_chunks xs ++ concat_chunks ys
unfolding concat_chunks
concat_chunks-append [] ys = refl
concat_chunks-append (x ∷ xs) ys =
    ap (λ o. x.bytes ++ o) (concat_chunks-append xs ys)
    ∙ sym (append_assoc x.bytes (concat_chunks xs) (concat_chunks ys))

pub is_empty_lem {ℓ} : {A : Type ℓ} (xs : List A) → is_empty xs ≡ true → xs ≡ []
is_empty_lem [] h = refl
is_empty_lem (x ∷ xs) h = cc

pub not-eq-false : (b : Bool) → not b ≡ false → b ≡ true
not-eq-false true h = refl
not-eq-false false h = cc

pub is_empty-take {ℓ} :
    {A : Type ℓ} (n : ℕ) (x : A) (xs : List A) → 1 ≤ n → is_empty (take n (x ∷ xs)) ≡ false
is_empty-take zero x xs h = absurd (omega arith)
is_empty-take (suc n) x xs h = refl

pub take-drop_append {ℓ} : {A : Type ℓ} (n : ℕ) (xs : List A) → take n xs ++ drop n xs ≡ xs
take-drop_append zero xs = refl
take-drop_append (suc n) [] = refl
take-drop_append (suc n) (x ∷ xs) = ap (λ r. x ∷ r) (take-drop_append n xs)
