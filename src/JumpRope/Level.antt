-- ===== src/JumpRope/Level.antt =====
-- One level of the skip list: the entries of its cells, and what a change of one entry does to them.
-- `next` gives the entry of a node at the level.
use jumprope_rs.Base.{
  ℕ, ◌≤◌, ◌<◌, ◌≡◌, ◌≢◌, refl, sym, ap, ◌∙◌, true, Option, some, List, [], ◌∷◌, ◌++◌, arith, ltb,
  Bool-cases, inl, inr, length-append, append_assoc, count_by-append, lt→ltb, All, All-append_left,
  All-append_right, subst,
}
use jumprope_rs.Utf8.{astral}
use jumprope_rs.JumpRope.{SkipEntry}
use jumprope_rs.JumpRope.Cells.{
  Cell, with_text, texts, entry_at, entry_end, grown, join, Low, reach, behind, reach-append,
  last_tall, reach-Low, behind-tall,
}

abbrev pub Level : (ℕ → Option SkipEntry) → ℕ → SkipEntry → List Cell → Type 0
Level next l e [] = Unit
Level next l e (c ∷ cs) =
    (l < c.height → next c.addr ≡ some (grown c.text (reach l e cs))) × Level next l e cs

abbrev pub LevelAt : List Cell → ℕ → (ℕ → Option SkipEntry) → Type 0
LevelAt cells l next = Level next l entry_end cells

abbrev pub Apart : ℕ → List Cell → Type 0
Apart a = All (λ c. c.addr ≢ a)

abbrev pub Distinct : List Cell → Type 0
Distinct [] = Unit
Distinct (c ∷ cs) = Apart c.addr cs × Distinct cs

module _ (next : ℕ → Option SkipEntry) (l : ℕ) where
  pub Level-append_left :
      (e : SkipEntry) (xs ys : List Cell)
      → Level next l e (xs ++ ys)
      → Level next l (reach l e ys) xs
  Level-append_left e [] ys h = tt
  Level-append_left e (c ∷ xs) ys (h, hs) = (
    λ tall. h tall ∙ ap (λ r. some (grown c.text r)) (reach-append l e xs ys),
    Level-append_left e xs ys hs,
  )

  pub Level-append_right :
      (e : SkipEntry) (xs ys : List Cell) → Level next l e (xs ++ ys) → Level next l e ys
  Level-append_right e [] ys h = h
  Level-append_right e (c ∷ xs) ys (h, hs) = Level-append_right e xs ys hs

  pub Level-append :
      (e : SkipEntry) (xs ys : List Cell)
      → Level next l (reach l e ys) xs
      → Level next l e ys
      → Level next l e (xs ++ ys)
  Level-append e [] ys h k = k
  Level-append e (c ∷ xs) ys (h, hs) k = (
    λ tall. h tall ∙ ap (λ r. some (grown c.text r)) (sym (reach-append l e xs ys)),
    Level-append e xs ys hs k,
  )

  pub Level-low : (e : SkipEntry) (m : List Cell) → Low l m → Level next l e m
  Level-low e [] low = tt
  Level-low e (c ∷ m) (h, low) = (λ tall. absurd (omega arith), Level-low e m low)

  pub Level-frame :
      (next' : ℕ → Option SkipEntry) (e : SkipEntry) (cs : List Cell)
      → All (λ c. next' c.addr ≡ next c.addr) cs
      → Level next l e cs
      → Level next' l e cs
  Level-frame next' e [] same h = tt
  Level-frame next' e (c ∷ cs) (s, same) (h, hs) =
      (λ tall. s ∙ h tall, Level-frame next' e cs same hs)

pub Distinct-append_left : (xs ys : List Cell) → Distinct (xs ++ ys) → Distinct xs
Distinct-append_left [] ys d = tt
Distinct-append_left (c ∷ xs) ys (a, d) =
    (All-append_left (λ x. x.addr ≢ c.addr) xs ys a, Distinct-append_left xs ys d)

pub Distinct-append_right : (xs ys : List Cell) → Distinct (xs ++ ys) → Distinct ys
Distinct-append_right [] ys d = d
Distinct-append_right (c ∷ xs) ys (a, d) = Distinct-append_right xs ys d

pub Distinct-Apart :
    (xs : List Cell) (c : Cell) (ys : List Cell) → Distinct (xs ++ c ∷ ys) → Apart c.addr xs
Distinct-Apart [] c ys d = tt
Distinct-Apart (x ∷ xs) c ys (a, d) = (
  λ same. (All-append_right (λ y. y.addr ≢ x.addr) xs (c ∷ ys) a).0 (sym same),
  Distinct-Apart xs c ys d,
)

pub Apart-frame :
    (next next' : ℕ → Option SkipEntry) (q : ℕ) (cs : List Cell)
    → ((a : ℕ) → a ≢ q → next' a ≡ next a)
    → Apart q cs
    → All (λ c. next' c.addr ≡ next c.addr) cs
Apart-frame next next' q [] same a = tt
Apart-frame next next' q (c ∷ cs) same (h, hs) =
    (same c.addr h, Apart-frame next next' q cs same hs)

-- The cells up to the place of an edit, cut at the last one above the level. The text of the cell at
-- the place may change.
pub record PathSplit (l : ℕ) (before : List Cell) (c : Cell) : Type 0 where
  pub front : List Cell
  pub last : List ℕ → Cell
  pub back : List ℕ → List Cell
  pub addr : ℕ
  pub split : (t : List ℕ) → before ++ with_text c t ∷ [] ≡ front ++ last t ∷ back t
  pub addr_eq : (t : List ℕ) → (last t).addr ≡ addr
  pub tall : (t : List ℕ) → l < (last t).height
  pub low : (t : List ℕ) → Low l (back t)

-- Something above the level is on the way.
abbrev pub HasTall : ℕ → List Cell → Cell → Type 0
HasTall l [] c = l < c.height
HasTall l (b ∷ before) c = l < b.height

Low-absurd :
    (l : ℕ) (before : List Cell) (c : Cell) → HasTall l before c → Low l before → c.height ≤ l → ⊥
Low-absurd l [] c h low le = omega arith
Low-absurd l (b ∷ before) c h (low, _) le = omega arith

All-append-Low : (l : ℕ) (m : List Cell) (c : Cell) → Low l m → c.height ≤ l → Low l (m ++ c ∷ [])
All-append-Low l [] c low le = (le, tt)
All-append-Low l (x ∷ m) c (h, low) le = (h, All-append-Low l m c low le)

pub path_split : (l : ℕ) (before : List Cell) (c : Cell) → HasTall l before c → PathSplit l before c
path_split l before c has = elim (Bool-cases (ltb l c.height)) [
  | inl t ↦ record {
    front = before;
    last = λ t. with_text c t;
    back = λ t. [];
    addr = c.addr;
    split = λ t. refl;
    addr_eq = λ t. refl;
    tall = λ _. ground arith;
    low = λ t. tt;
  }
  | inr f ↦ elim (last_tall l before) [
    | inl low ↦ absurd (Low-absurd l before c has low (ground arith))
    | inr s ↦ record {
      front = s.front;
      last = λ t. s.last;
      back = λ t. s.back ++ with_text c t ∷ [];
      addr = s.last.addr;
      split = λ t.
          ap (λ b. b ++ with_text c t ∷ []) s.cells_eq
          ∙ append_assoc s.front (s.last ∷ s.back) (with_text c t ∷ []);
      addr_eq = λ t. refl;
      tall = λ t. s.tall;
      low = λ t. All-append-Low l s.back (with_text c t) s.low (ground arith);
    }
  ]
]

grown-join :
    (s u : List ℕ) (a : ℕ) (e : SkipEntry)
    → grown s (grown u e) ≡ join (grown (s ++ u) (entry_at a)) e
grown-join s u a e = ground (arith, length-append s u, count_by-append astral s u)

module _ (l : ℕ) (before : List Cell) (c : Cell) (has : HasTall l before c) where
  open path_split l before c has use {front, last, back, addr, split, addr_eq, tall, low}

  -- The address of the entry that passes over the place.
  unfoldable pub owner : ℕ
  owner = addr

  pub behind-path :
      (b : SkipEntry) (t : List ℕ)
      → behind l b (before ++ with_text c t ∷ [])
        ≡ grown ((last t).text ++ texts (back t)) (entry_at owner)
  unfolding owner
  behind-path b t =
      ap (behind l b) (split t)
      ∙ behind-tall l b front (last t) (back t) (tall t) (low t)
      ∙ ap (λ a. grown ((last t).text ++ texts (back t)) (entry_at a)) (addr_eq t)

  -- That entry.
  pub owner_entry :
      (next : ℕ → Option SkipEntry) (b e : SkipEntry) (t : List ℕ)
      → Level next l e (before ++ with_text c t ∷ [])
      → next owner ≡ some (join (behind l b (before ++ with_text c t ∷ [])) e)
  unfolding owner
  owner_entry next b e t h =
      ap next (sym (addr_eq t))
      ∙ (Level-append_right next l e front (last t ∷ back t) (subst (Level next l e) (split t) h)).0
          (tall t)
      ∙ ap some (
          ap (grown (last t).text) (reach-Low l e (back t) (low t))
          ∙ grown-join (last t).text (texts (back t)) addr e
          ∙ ap (λ x. join x e) (sym (behind-path b t)))

  -- Another entry there, and the same elsewhere: another text for the cell, and another way on.
  pub relink :
      (next next' : ℕ → Option SkipEntry) (b e e' : SkipEntry) (t t' : List ℕ)
      → Distinct (before ++ c ∷ [])
      → Level next l e (before ++ with_text c t ∷ [])
      → ((a : ℕ) → a ≢ owner → next' a ≡ next a)
      → next' owner ≡ some (join (behind l b (before ++ with_text c t' ∷ [])) e')
      → Level next' l e' (before ++ with_text c t' ∷ [])
  unfolding owner
  relink next next' b e e' t t' d h same at = subst (Level next' l e') (sym (split t')) (
      Level-append next' l e' front (last t' ∷ back t') left
        ((λ _. here), Level-low next' l e' (back t') (low t')))
    where
      apart : Apart addr front
      apart =
          subst (λ a. Apart a front) (addr_eq c.text)
            (Distinct-Apart front (last c.text) (back c.text) (subst Distinct (split c.text) d))

      stops : (u : List ℕ) (x : SkipEntry) → reach l x (last u ∷ back u) ≡ entry_at addr
      stops u x =
          let t : ltb l (last u).height ≡ true = lt→ltb l (last u).height (tall u) in
          rw t (ap entry_at (addr_eq u))

      left : Level next' l (reach l e' (last t' ∷ back t')) front
      left =
          subst (λ r. Level next' l r front) (sym (stops t' e'))
            (Level-frame next l next' (entry_at addr) front
              (Apart-frame next next' addr front same apart)
              (subst (λ r. Level next l r front) (stops t e)
                (Level-append_left next l e front (last t ∷ back t)
                  (subst (Level next l e) (split t) h))))

      here : next' (last t').addr ≡ some (grown (last t').text (reach l e' (back t')))
      here =
          ap next' (addr_eq t')
          ∙ at
          ∙ ap some (
              ap (λ x. join x e') (behind-path b t')
              ∙ sym (grown-join (last t').text (texts (back t')) addr e')
              ∙ ap (grown (last t').text) (sym (reach-Low l e' (back t') (low t'))))
