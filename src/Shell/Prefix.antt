-- ===== src/Shell/Prefix.antt =====
-- TerminalShellIntegrationParser.ts: what is found in bytes that are followed by others, or that
-- follow others.
use floeterm.Common.{
  ℕ, ◌≡◌, refl, ap, ◌∙◌, Bool, true, false, ◌&&◌, List, [], ◌∷◌, ◌++◌, Option, none, some, ◌==◌,
  if◌then◌else◌, if_cases, if_false, arith,
}
use floeterm.Shell.{
  esc, osc, bel, st, Start, push_before, find_start, Terminated, push_payload, find_terminator,
  ends_with_esc, without_last,
}

abbrev pub push_all : List ℕ → Option Start → Option Start
push_all u none = none
push_all u (some s) = some (record s { before = u ++ s.before })

push_before-push_all :
    (b : ℕ) (u : List ℕ) (o : Option Start) → push_before b (push_all u o) ≡ push_all (b ∷ u) o
push_before-push_all b u none = refl
push_before-push_all b u (some s) = refl

-- More bytes behind a sequence that has been found.
abbrev pub WithBehind : List ℕ → Option Start → Option Start → Type 0
WithBehind t none o = Unit
WithBehind t (some s) o = o ≡ some (record s { behind = s.behind ++ t })

WithBehind-push :
    (t : List ℕ) (b : ℕ) (o p : Option Start)
    → WithBehind t o p
    → WithBehind t (push_before b o) (push_before b p)
WithBehind-push t b none p w = tt
WithBehind-push t b (some s) p w = ap (push_before b) w

pub find_start-WithBehind : (s t : List ℕ) → WithBehind t (find_start s) (find_start (s ++ t))
unfolding find_start
find_start-WithBehind [] t = tt
find_start-WithBehind (b ∷ []) t = tt
find_start-WithBehind (b ∷ (c ∷ bs)) t =
    elim (b == esc && c == osc)
      as (λ x.
        WithBehind t
          (if x
            then some (record { before = []; behind = bs })
            else push_before b (find_start (c ∷ bs)))
          (if x
            then some (record { before = []; behind = bs ++ t })
            else push_before b (find_start ((c ∷ bs) ++ t)))) [
              | true ↦ refl
              | false ↦
                  WithBehind-push t b (find_start (c ∷ bs)) (find_start ((c ∷ bs) ++ t))
                    (find_start-WithBehind (c ∷ bs) t)
            ]

-- Where the sequence is.
abbrev pub Located : List ℕ → Option Start → Type 0
Located bytes none = Unit
Located bytes (some s) = bytes ≡ s.before ++ (esc ∷ (osc ∷ s.behind))

Located-push :
    (b : ℕ) (bytes : List ℕ) (o : Option Start)
    → Located bytes o
    → Located (b ∷ bytes) (push_before b o)
Located-push b bytes none w = tt
Located-push b bytes (some s) w = ap (λ cs. b ∷ cs) w

pub find_start-Located : (bytes : List ℕ) → Located bytes (find_start bytes)
unfolding find_start
find_start-Located [] = tt
find_start-Located (b ∷ []) = tt
find_start-Located (b ∷ (c ∷ bs)) =
    if_cases (Located (b ∷ (c ∷ bs))) (b == esc && c == osc) (λ found. ground arith)
      (λ goes_on. Located-push b (c ∷ bs) (find_start (c ∷ bs)) (find_start-Located (c ∷ bs)))

same_start : (o : Option Start) → o ≡ push_all [] o
same_start none = refl
same_start (some s) = refl

push_before-single : (b : ℕ) (o : Option Start) → push_before b o ≡ push_all (b ∷ []) o
push_before-single b none = refl
push_before-single b (some s) = refl

no_start :
    (test : Bool) (s : Start) (b : ℕ) (o : Option Start)
    → (if test then some s else push_before b o) ≡ none
    → (test ≡ false) × (o ≡ none)
no_start true s b o e = cc
no_start false s b none e = (refl, refl)
no_start false s b (some p) e = cc

-- Bytes without a start, that no sequence can begin with the last of, are passed over.
pub find_start-push_all :
    (s t : List ℕ)
    → find_start s ≡ none
    → ends_with_esc s ≡ false
    → find_start (s ++ t) ≡ push_all s (find_start t)
unfolding find_start
find_start-push_all [] t e f = same_start (find_start t)
find_start-push_all (b ∷ []) [] e f = refl
find_start-push_all (b ∷ []) (c ∷ t) e f =
    if_false (b == esc && c == osc) _ _ (ground (arith, f))
    ∙ push_before-single b (find_start (c ∷ t))
find_start-push_all (b ∷ (c ∷ bs)) t e f =
    let (test, none_behind) = no_start (b == esc && c == osc) _ b (find_start (c ∷ bs)) e in
    if_false (b == esc && c == osc) _ _ test
    ∙ ap (push_before b) (find_start-push_all (c ∷ bs) t none_behind f)
    ∙ push_before-push_all b (c ∷ bs) (find_start t)

-- Those before a final ESC are, too.
pub find_start_before_last :
    (s t : List ℕ)
    → find_start s ≡ none
    → ends_with_esc s ≡ true
    → find_start (s ++ t) ≡ push_all (without_last s) (find_start (esc ∷ t))
unfolding find_start
find_start_before_last [] t e f = cc
find_start_before_last (b ∷ []) t e f =
    let is_esc : b ≡ esc = ground (arith, f) in
    ap (λ x. find_start (x ∷ t)) is_esc ∙ same_start (find_start (esc ∷ t))
find_start_before_last (b ∷ (c ∷ bs)) t e f =
    let (test, none_behind) = no_start (b == esc && c == osc) _ b (find_start (c ∷ bs)) e in
    if_false (b == esc && c == osc) _ _ test
    ∙ ap (push_before b) (find_start_before_last (c ∷ bs) t none_behind f)
    ∙ push_before-push_all b (without_last (c ∷ bs)) (find_start (esc ∷ t))

pub without_last-append :
    (s t : List ℕ) → ends_with_esc s ≡ true → s ++ t ≡ without_last s ++ (esc ∷ t)
without_last-append [] t h = cc
without_last-append (b ∷ []) t h = ground arith
without_last-append (b ∷ (c ∷ bs)) t h = ap (λ cs. b ∷ cs) (without_last-append (c ∷ bs) t h)

-- A terminator that has been found stays.
abbrev pub Keeps : List ℕ → Option Terminated → Option Terminated → Type 0
Keeps x none o = Unit
Keeps x (some t) o = o ≡ some (record t { behind = t.behind ++ x })

Keeps-push :
    (x : List ℕ) (b : ℕ) (o p : Option Terminated)
    → Keeps x o p
    → Keeps x (push_payload b o) (push_payload b p)
Keeps-push x b none p w = tt
Keeps-push x b (some t) p w = ap (push_payload b) w

one_byte : (b : ℕ) → Keeps [] (find_terminator (b ∷ [])) (find_terminator (b ∷ []))
unfolding find_terminator
one_byte b =
    elim (b == bel)
      as (λ y.
        Keeps []
          (if y then some (record { payload = []; terminator = bel ∷ []; behind = [] }) else none)
          (if y
            then some (record { payload = []; terminator = bel ∷ []; behind = [] })
            else none)) [ true ↦ refl | false ↦ tt ]

pub find_terminator-Keeps : (r x : List ℕ) → Keeps x (find_terminator r) (find_terminator (r ++ x))
unfolding find_terminator
find_terminator-Keeps [] x = tt
find_terminator-Keeps (b ∷ []) [] = one_byte b
find_terminator-Keeps (b ∷ []) (c ∷ x) =
    elim (b == bel)
      as (λ y.
        Keeps (c ∷ x)
          (if y then some (record { payload = []; terminator = bel ∷ []; behind = [] }) else none)
          (if y
            then some (record { payload = []; terminator = bel ∷ []; behind = c ∷ x })
            else if b == esc && c == st
            then some (record { payload = []; terminator = esc ∷ (st ∷ []); behind = x })
            else push_payload b (find_terminator (c ∷ x)))) [ true ↦ refl | false ↦ tt ]
find_terminator-Keeps (b ∷ (c ∷ bs)) x =
    elim (b == bel)
      as (λ y.
        Keeps x
          (if y
            then some (record { payload = []; terminator = bel ∷ []; behind = c ∷ bs })
            else if b == esc && c == st
            then some (record { payload = []; terminator = esc ∷ (st ∷ []); behind = bs })
            else push_payload b (find_terminator (c ∷ bs)))
          (if y
            then some (record { payload = []; terminator = bel ∷ []; behind = c ∷ (bs ++ x) })
            else if b == esc && c == st
            then some (record { payload = []; terminator = esc ∷ (st ∷ []); behind = bs ++ x })
            else push_payload b (find_terminator (c ∷ (bs ++ x))))) [
              | true ↦ refl
              | false ↦
                  elim (b == esc && c == st)
                    as (λ z.
                      Keeps x
                        (if z
                          then some
                              (record { payload = []; terminator = esc ∷ (st ∷ []); behind = bs })
                          else push_payload b (find_terminator (c ∷ bs)))
                        (if z
                          then some (record {
                            payload = [];
                            terminator = esc ∷ (st ∷ []);
                            behind = bs ++ x;
                          })
                          else push_payload b (find_terminator (c ∷ (bs ++ x))))) [
                            | true ↦ refl
                            | false ↦
                                Keeps-push x b (find_terminator (c ∷ bs))
                                  (find_terminator ((c ∷ bs) ++ x))
                                  (find_terminator-Keeps (c ∷ bs) x)
                          ]
            ]
