-- ===== src/JumpRope/Entries.antt =====
-- The changes of src/jumprope.rs to the lower entries of a node or a cursor.
use jumprope_rs.Base.{
  ℕ, zero, suc, ◌≤◌, ◌<◌, ◌≡◌, ◌∙◌, refl, ap, Option, some, List, [], ◌∷◌, arith, length, get_elem?,
  Returns, returns, Returns-bind,
}
use jumprope_rs.JumpRope.{SkipEntry, map_entries}

-- Below `n` the entries are those that `new` gives, and above they are the same.
pub record Mapped (new : ℕ → SkipEntry) (n : ℕ) (entries entries' : List SkipEntry) : Type 0 where
  pub changed : (l : ℕ) → l < n → get_elem? entries' l ≡ some (new l)
  pub kept : (l : ℕ) → n ≤ l → get_elem? entries' l ≡ get_elem? entries l
  pub same_length : length entries' ≡ length entries

pub map_entries_lem :
    (f : SkipEntry → Option SkipEntry) (new : ℕ → SkipEntry) (n : ℕ) (entries : List SkipEntry)
    → n ≤ length entries
    → ((l : ℕ) → l < n → (x : SkipEntry) × (get_elem? entries l ≡ some x) × (f x ≡ some (new l)))
    → Returns (Mapped new n entries) (map_entries f n entries)
unfolding map_entries
map_entries_lem f new zero entries le at =
    returns
      (record { changed = λ l lt. absurd (omega arith); kept = λ l ge. refl; same_length = refl })
map_entries_lem f new (suc n) [] le at = absurd (omega arith)
map_entries_lem f new (suc n) (x ∷ entries) le at =
    let (y, is_x, fx) = at 0 (omega arith) in
    let fx' : f x ≡ some (new 0) = ap f (some_eq is_x) ∙ fx in
    rw fx' (
      Returns-bind
        (map_entries_lem f (λ l. new (suc l)) n entries (omega arith)
          (λ l lt. at (suc l) (omega arith)))
        λ entries' m. returns (mapped entries' m))
  where
    some_eq : {y : SkipEntry} → some x ≡ some y → x ≡ y
    some_eq h = cc

    mapped :
        (entries' : List SkipEntry)
        → Mapped (λ l. new (suc l)) n entries entries'
        → Mapped new (suc n) (x ∷ entries) (new 0 ∷ entries')
    mapped entries' m = record {
      changed = changed_at;
      kept = kept_at;
      same_length = ap suc m.same_length;
    }
      where
        changed_at : (l : ℕ) → l < suc n → get_elem? (new 0 ∷ entries') l ≡ some (new l)
        changed_at zero lt = refl
        changed_at (suc l) lt = m.changed l (omega arith)

        kept_at : (l : ℕ) → suc n ≤ l → get_elem? (new 0 ∷ entries') l ≡ get_elem? (x ∷ entries) l
        kept_at zero ge = absurd (omega arith)
        kept_at (suc l) ge = m.kept l (omega arith)
