-- ===== src/JumpRope/Relink.antt =====
-- Changes at a place of the skip list of src/jumprope.rs, at one level: the entry that passes over the
-- place, the text of the cell at the place, and the cells behind it.
use jumprope_rs.Base.{
  ℕ, ◌≡◌, ◌≢◌, sym, ap, ◌∙◌, subst, some, Option, List, [], ◌∷◌, ◌++◌, append_assoc,
  All-append_right,
}
use jumprope_rs.JumpRope.{SkipEntry}
use jumprope_rs.JumpRope.Cells.{Cell, with_text, entry_end, grown, join, reach}
use jumprope_rs.JumpRope.Level.{
  Level, Level-append_left, Level-append_right, Level-append, Level-frame, Apart, Apart-frame,
  Distinct, Distinct-append_left, Distinct-append_right, HasTall, path_split, owner, owner_entry,
  relink, behind-path,
}
use jumprope_rs.JumpRope.Place.{start, start_lem}

one_by_one :
    (before : List Cell) (c : Cell) (after : List Cell)
    → (before ++ c ∷ []) ++ after ≡ before ++ c ∷ after
one_by_one before c after = append_assoc before (c ∷ []) after

module _ (l : ℕ) (before : List Cell) (c : Cell) (has : HasTall l before c) (after : List Cell)
    (distinct : Distinct (before ++ c ∷ after)) where
  abbrev here : ℕ
  here = owner l before c has

  cells-split :
      before ++ c ∷ after
      ≡ (path_split l before c has).front
        ++ ((path_split l before c has).last c.text
            ∷ ((path_split l before c has).back c.text ++ after))
  cells-split =
      let s = path_split l before c has in
      sym (one_by_one before c after)
      ∙ ap (λ cs. cs ++ after) (s.split c.text)
      ∙ append_assoc s.front _ after

  owner-Apart : Apart here after
  unfolding owner
  owner-Apart =
      let s = path_split l before c has in
      subst (λ a. Apart a after) (s.addr_eq c.text)
        (All-append_right _ (s.back c.text) after
          (Distinct-append_right s.front _ (subst Distinct cells-split distinct)).0)

  -- The entry over the place is a cell's.
  pub owner-is_cell : (q : ℕ) → Apart q (before ++ c ∷ after) → here ≢ q
  unfolding owner
  owner-is_cell q apart =
      let s = path_split l before c has in
      subst (λ a. a ≢ q) (s.addr_eq c.text)
        (All-append_right _ s.front _ (subst (Apart q) cells-split apart)).0

  -- The cells behind the place do not change.
  pub after-Level :
      (next next' : ℕ → Option SkipEntry) (t : List ℕ)
      → Level next l entry_end (before ++ with_text c t ∷ after)
      → ((a : ℕ) → a ≢ here → next' a ≡ next a)
      → Level next' l entry_end after
  after-Level next next' t h same =
      Level-frame next l next' entry_end after (Apart-frame next next' here after same owner-Apart)
        (Level-append_right next l entry_end before (with_text c t ∷ after) h).1

  -- The entry over the place.
  pub here_entry :
      (next : ℕ → Option SkipEntry) (t : List ℕ)
      → Level next l entry_end (before ++ with_text c t ∷ after)
      → next here ≡ some (join (grown t (start l before c)) (reach l entry_end after))
  here_entry next t h =
      owner_entry l before c has next entry_end (reach l entry_end after) t (
        Level-append_left next l entry_end (before ++ with_text c t ∷ []) after
          (subst (Level next l entry_end) (sym (one_by_one before (with_text c t) after)) h))
      ∙ ap (λ b. some (join b (reach l entry_end after))) (start_lem l before c t)

  -- A new entry there, for another text of the cell and other cells behind it.
  pub relevel :
      (next next' : ℕ → Option SkipEntry) (t t' : List ℕ) (after' : List Cell)
      → Level next l entry_end (before ++ with_text c t ∷ after)
      → Level next' l entry_end after'
      → ((a : ℕ) → a ≢ here → next' a ≡ next a)
      → next' here ≡ some (join (grown t' (start l before c)) (reach l entry_end after'))
      → Level next' l entry_end (before ++ with_text c t' ∷ after')
  relevel next next' t t' after' h h' same at =
      subst (Level next' l entry_end) (one_by_one before (with_text c t') after') (
        Level-append next' l entry_end (before ++ with_text c t' ∷ []) after'
          (relink l before c has next next' entry_end (reach l entry_end after)
            (reach l entry_end after') t t'
            (Distinct-append_left (before ++ c ∷ []) after
              (subst Distinct (sym (one_by_one before c after)) distinct))
            (Level-append_left next l entry_end (before ++ with_text c t ∷ []) after
              (subst (Level next l entry_end) (sym (one_by_one before (with_text c t) after)) h))
            same
            (at
              ∙ ap (λ b. some (join b (reach l entry_end after'))) (sym (start_lem l before c t'))))
          h')

  -- The cursor's entry points to it.
  pub here_node : (xs : List ℕ) → (grown xs (start l before c)).node ≡ some here
  here_node xs =
      ap (λ (x : SkipEntry). x.node)
        (sym (start_lem l before c xs) ∙ behind-path l before c has entry_end xs)
