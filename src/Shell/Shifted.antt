-- ===== src/Shell/Shifted.antt =====
-- TerminalShellIntegrationParser.ts: bytes in front that are passed over are displayed first.
use floeterm.Common.{
  ℕ, ◌≡◌, refl, sym, ap, ◌∙◌, subst, Bool, true, false, List, [], ◌∷◌, ◌++◌, append_assoc, Option,
  none, some, length, ltb, if◌then◌else◌,
}
use floeterm.Shell.{
  esc, osc, Event, Token, display, event, Payload, Start, find_start, Terminated, find_terminator,
  append_display, ends_with_esc, without_last, Output, plain, end_plain, end_open, Round, last,
  next, tokens_of, close, scan_round, scan,
}
use floeterm.Shell.Rounds.{after_round, scan-eq-after_round}
use floeterm.Shell.Prefix.{push_all}

-- What a terminal sees of the tokens: bytes, and events between them.
pub data Item : Type 0 where
  byte : ℕ → Item
  said : Event → Item

abbrev pub bytes_items : List ℕ → List Item
bytes_items [] = []
bytes_items (b ∷ bs) = byte b ∷ bytes_items bs

abbrev pub items : List Token → List Item
items [] = []
items (display bs ∷ tokens) = bytes_items bs ++ items tokens
items (event e ∷ tokens) = said e ∷ items tokens

pub bytes_items-append :
    (xs ys : List ℕ) → bytes_items (xs ++ ys) ≡ bytes_items xs ++ bytes_items ys
bytes_items-append [] ys = refl
bytes_items-append (x ∷ xs) ys = ap (λ zs. byte x ∷ zs) (bytes_items-append xs ys)

pub items-append : (xs ys : List Token) → items (xs ++ ys) ≡ items xs ++ items ys
items-append [] ys = refl
items-append (display bs ∷ xs) ys =
    ap (λ zs. bytes_items bs ++ zs) (items-append xs ys)
    ∙ sym (append_assoc (bytes_items bs) (items xs) (items ys))
items-append (event e ∷ xs) ys = ap (λ zs. said e ∷ zs) (items-append xs ys)

pub items-append_display :
    (bs : List ℕ) (tokens : List Token)
    → items (append_display bs tokens) ≡ bytes_items bs ++ items tokens
items-append_display [] tokens = refl
items-append_display (b ∷ bs) tokens = refl

both_displayed :
    (u v : List ℕ) (tokens : List Token)
    → items (append_display (u ++ v) tokens) ≡ bytes_items u ++ items (append_display v tokens)
both_displayed u v tokens =
    items-append_display (u ++ v) tokens
    ∙ ap (λ zs. zs ++ items tokens) (bytes_items-append u v)
    ∙ append_assoc (bytes_items u) (bytes_items v) (items tokens)
    ∙ ap (λ zs. bytes_items u ++ zs) (sym (items-append_display v tokens))

-- An output with more bytes in front.
pub record Shifts (u : List ℕ) (o p : Output) : Type 0 where
  pub shown : items o.tokens ≡ bytes_items u ++ items p.tokens
  pub kept : o.pending ≡ p.pending

abbrev RoundShifts : List ℕ → Round → Round → Type 0
RoundShifts u (last o) (last p) = Shifts u o p
RoundShifts u (next xs b) (next ys c) = (items xs ≡ bytes_items u ++ items ys) × (b ≡ c)
RoundShifts u (last o) (next ys c) = ⊥
RoundShifts u (next xs b) (last p) = ⊥

without_last-append_front :
    (u v : List ℕ) → ends_with_esc v ≡ true → without_last (u ++ v) ≡ u ++ without_last v
without_last-append_front [] v h = refl
without_last-append_front (a ∷ []) [] h = cc
without_last-append_front (a ∷ []) (b ∷ v) h = refl
without_last-append_front (a ∷ (b ∷ u)) v h =
    ap (λ cs. a ∷ cs) (without_last-append_front (b ∷ u) v h)

plain-Shifts :
    (x y : Bool) (u v : List ℕ)
    → x ≡ y
    → ends_with_esc v ≡ y
    → Shifts u (plain x (u ++ v)) (plain y v)
plain-Shifts true true u v h e = record {
  shown =
      ap (λ bs. items (append_display bs [])) (without_last-append_front u v e)
      ∙ both_displayed u (without_last v) [];
  kept = refl;
}
plain-Shifts false false u v h e = record { shown = both_displayed u v []; kept = refl }
plain-Shifts true false u v h e = cc
plain-Shifts false true u v h e = cc

end_plain-Shifts :
    (u v : List ℕ)
    → ends_with_esc (u ++ v) ≡ ends_with_esc v
    → Shifts u (end_plain (u ++ v)) (end_plain v)
unfolding end_plain
end_plain-Shifts u v h = plain-Shifts (ends_with_esc (u ++ v)) (ends_with_esc v) u v h refl

module _ (limit : ℕ) (recognize : List ℕ → Payload) where
  end_open-Shifts :
      (u : List ℕ) (s : Start)
      → Shifts u (end_open limit (record s { before = u ++ s.before })) (end_open limit s)
  unfolding end_open
  end_open-Shifts u s =
      elim (ltb limit (length (esc ∷ osc ∷ s.behind)))
        as (λ x.
          Shifts u
            (if x
              then (record {
                tokens = append_display (u ++ s.before) (display (esc ∷ osc ∷ s.behind) ∷ []);
                pending = [];
              })
              else (record {
                tokens = append_display (u ++ s.before) [];
                pending = esc ∷ osc ∷ s.behind;
              }))
            (if x
              then (record {
                tokens = append_display s.before (display (esc ∷ osc ∷ s.behind) ∷ []);
                pending = [];
              })
              else (record {
                tokens = append_display s.before [];
                pending = esc ∷ osc ∷ s.behind;
              }))) [
                | true ↦ record {
                  shown = both_displayed u s.before (display (esc ∷ osc ∷ s.behind) ∷ []);
                  kept = refl;
                }
                | false ↦ record { shown = both_displayed u s.before []; kept = refl }
              ]

  close-RoundShifts :
      (u : List ℕ) (s : Start) (o : Option Terminated)
      → RoundShifts u
          (close limit recognize (record s { before = u ++ s.before }) o)
          (close limit recognize s o)
  close-RoundShifts u s none = end_open-Shifts u s
  close-RoundShifts u s (some t) =
      (both_displayed u s.before (tokens_of (recognize t.payload) t.payload t.terminator), refl)

  scan_round-RoundShifts :
      (u v : List ℕ)
      → find_start (u ++ v) ≡ push_all u (find_start v)
      → ends_with_esc (u ++ v) ≡ ends_with_esc v
      → RoundShifts u (scan_round limit recognize (u ++ v)) (scan_round limit recognize v)
  unfolding scan_round
  scan_round-RoundShifts u v f h =
      subst
        (λ q.
          RoundShifts u
            (elim q [
              | none ↦ last (end_plain (u ++ v))
              | some s ↦ close limit recognize s (find_terminator s.behind)
            ])
            (scan_round limit recognize v))
        (sym f)
        (elim (find_start v)
          as (λ o.
            RoundShifts u
              (elim (push_all u o) [
                | none ↦ last (end_plain (u ++ v))
                | some s ↦ close limit recognize s (find_terminator s.behind)
              ])
              (elim o [
                | none ↦ last (end_plain v)
                | some s ↦ close limit recognize s (find_terminator s.behind)
              ])) [
                | none ↦ end_plain-Shifts u v h
                | some s ↦ close-RoundShifts u s (find_terminator s.behind)
              ])

  after_round-Shifts :
      (u : List ℕ) (r q : Round)
      → RoundShifts u r q
      → Shifts u (after_round limit recognize r) (after_round limit recognize q)
  after_round-Shifts u (last o) (last p) w = w
  after_round-Shifts u (next xs b) (next ys c) w = record {
    shown =
        items-append xs ((scan limit recognize b).tokens)
        ∙ ap (λ zs. zs ++ items ((scan limit recognize b).tokens)) w.0
        ∙ append_assoc (bytes_items u) (items ys) (items ((scan limit recognize b).tokens))
        ∙ ap (λ zs. bytes_items u ++ (items ys ++ items ((scan limit recognize zs).tokens))) w.1
        ∙ ap (λ zs. bytes_items u ++ zs) (sym (items-append ys ((scan limit recognize c).tokens)));
    kept = ap (λ z. (scan limit recognize z).pending) w.1;
  }
  after_round-Shifts u (last o) (next ys c) w = elim w [ ]
  after_round-Shifts u (next xs b) (last p) w = elim w [ ]

  pub scan-Shifts :
      (u v : List ℕ)
      → find_start (u ++ v) ≡ push_all u (find_start v)
      → ends_with_esc (u ++ v) ≡ ends_with_esc v
      → Shifts u (scan limit recognize (u ++ v)) (scan limit recognize v)
  scan-Shifts u v f h =
      subst (λ o. Shifts u o (scan limit recognize v))
        (sym (scan-eq-after_round limit recognize (u ++ v)))
        (subst (Shifts u (after_round limit recognize (scan_round limit recognize (u ++ v))))
          (sym (scan-eq-after_round limit recognize v))
          (after_round-Shifts u (scan_round limit recognize (u ++ v)) (scan_round limit recognize v)
            (scan_round-RoundShifts u v f h)))
