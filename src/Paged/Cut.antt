-- ===== src/Paged/Cut.antt =====
-- PagedTerminalOutputCoordinator.ts: the pages of a prepared history, and what is cut off.
use floeterm.Common.{
  ℕ, ◌+◌, ◌≤◌, ◌≡◌, ◌⊎◌, inl, inr, true, false, List, [], ◌∷◌, ◌++◌, append_assoc, append-nil,
  Option, none, some, length, refl, sym, ap, subst, ◌∙◌, arith,
}
use floeterm.Common.Number.{whole}
use floeterm.Common.Fallible.{ok}
use floeterm.Pipeline.State.{Chunk}
use floeterm.Paged.History.{Page, Prepared}
use floeterm.Paged.Preparation.{PageNumbers, Snapshot, page_numbers, has_changed}
use floeterm.Paged.Taken.{snapshot_of, StartsOf, Stops}

abbrev pub chunks_of : List Page → List Chunk
chunks_of [] = []
chunks_of (page ∷ pages) = page.chunks ++ chunks_of pages

-- The second page and its numbers show the history of the first one's numbers.
abbrev pub Agree : PageNumbers → Page → PageNumbers → Type 0
Agree m page n =
    (page.history_reset ≡ false)
    × (page.history_truncated ≡ false)
    × (n.generation ≡ m.generation)
    × (n.snapshot_end ≡ m.snapshot_end)
    × (n.first_retained ≤ m.first_retained)

abbrev pub Stays : Page → Page → Type 0
Stays before page =
    (m : PageNumbers) × (n : PageNumbers) × (page_numbers before ≡ ok m)
    × (page_numbers page ≡ ok n)
    × Agree m page n

abbrev pub Changes : Page → Page → Type 0
Changes before page =
    (m : PageNumbers) × (n : PageNumbers) × (page_numbers before ≡ ok m)
    × (page_numbers page ≡ ok n)
    × ¬ Agree m page n

abbrev first_or : Page → List Page → Page
first_or last [] = last
first_or last (page ∷ pages) = page

-- No page changes the history, of these and the last one.
abbrev pub IsStable : List Page → Page → Type 0
IsStable [] last = Unit
IsStable (page ∷ pages) last = Stays page (first_or last pages) × IsStable pages last

-- The pages end with one that has changed the history.
pub record EndsChanged (pages : List Page) : Type 0 where
  pub front : List Page
  pub before : Page
  pub last : Page
  pub parts : pages ≡ front ++ (before ∷ last ∷ [])
  pub changes : Changes before last

-- After `seen` pages: the history is made of the pages from the last change on, up to the page at
-- which there are no more or the limit is reached. Left out is at most an end of their chunks, from
-- one on that would exceed the limit.
pub record IsCut (seen limit : ℕ) (pages : List Page) (h : Prepared) : Type 0 where
  pub skipped : List Page
  pub used : List Page
  pub last : Page
  pub rest : List Page
  pub parts : pages ≡ skipped ++ (used ++ (last ∷ rest))
  pub changed : (skipped ≡ []) ⊎ EndsChanged skipped
  pub stable : IsStable used last
  pub numbered : h.page_count ≡ whole (seen + (length skipped + (length used + 1)))
  pub holds : StartsOf limit (chunks_of used ++ last.chunks) h
  pub stops : Stops limit (chunks_of used ++ last.chunks) last

chunks_of-append : (xs ys : List Page) → chunks_of (xs ++ ys) ≡ chunks_of xs ++ chunks_of ys
chunks_of-append [] ys = refl
chunks_of-append (x ∷ xs) ys =
    ap (λ cs. x.chunks ++ cs) (chunks_of-append xs ys)
    ∙ sym (append_assoc x.chunks (chunks_of xs) (chunks_of ys))

pub with_page :
    (used : List Page) (page : Page)
    → chunks_of used ++ page.chunks ≡ chunks_of (used ++ (page ∷ []))
with_page used page =
    ap (λ cs. chunks_of used ++ cs) (sym (append-nil page.chunks))
    ∙ sym (chunks_of-append used (page ∷ []))

first_or-snoc :
    (last page : Page) (pages : List Page)
    → first_or page (pages ++ (last ∷ [])) ≡ first_or last pages
first_or-snoc last page [] = refl
first_or-snoc last page (q ∷ pages) = refl

IsStable-snoc :
    (used : List Page) (last page : Page)
    → IsStable used last
    → Stays last page
    → IsStable (used ++ (last ∷ [])) page
IsStable-snoc [] last page s more_stable = (more_stable, tt)
IsStable-snoc (p ∷ used) last page s more_stable = (
  subst (Stays p) (sym (first_or-snoc last page used)) s.0,
  IsStable-snoc used last page s.1 more_stable,
)

-- The snapshot is that of the last page, or there is none yet.
pub data Follows : List Page → Option Snapshot → Type 0 where
  first : Follows [] none
  behind :
      (used : List Page) (last : Page) (n : PageNumbers)
      → page_numbers last ≡ ok n
      → IsStable used last
      → Follows (used ++ (last ∷ [])) (some (snapshot_of n))

pub used-IsStable :
    (used : List Page) (s : Option Snapshot) (page : Page) (n : PageNumbers)
    → Follows used s
    → page_numbers page ≡ ok n
    → has_changed page n s ≡ false
    → IsStable used page
used-IsStable _ _ page n first k same = tt
used-IsStable _ _ page n (behind used last m j stable) k same =
    IsStable-snoc used last page stable
      (m, n, j, k, (ground arith, ground arith, ground arith, ground arith, ground arith))

pub used-EndsChanged :
    (used : List Page) (s : Option Snapshot) (page : Page) (n : PageNumbers)
    → Follows used s
    → page_numbers page ≡ ok n
    → has_changed page n s ≡ true
    → EndsChanged (used ++ (page ∷ []))
used-EndsChanged _ _ page n first k other = cc
used-EndsChanged _ _ page n (behind used last m j stable) k other = record {
  front = used;
  before = last;
  last = page;
  parts = append_assoc used (last ∷ []) (page ∷ []);
  changes = (m, n, j, k, λ agree. ground (arith, agree.0, agree.1));
}

pub EndsChanged-before :
    (front pages : List Page)
    → EndsChanged front
    → (pages ≡ []) ⊎ EndsChanged pages
    → EndsChanged (front ++ pages)
EndsChanged-before front pages v (inl none_left) =
    subst EndsChanged (sym (append-nil front) ∙ ap (λ r. front ++ r) (sym none_left)) v
EndsChanged-before front pages v (inr w) = record {
  front = front ++ w.front;
  before = w.before;
  last = w.last;
  parts = ap (λ r. front ++ r) w.parts ∙ sym (append_assoc front w.front (w.before ∷ w.last ∷ []));
  changes = w.changes;
}
