-- ===== src/Buffered/Views.antt =====
-- Which text a buffered rope of src/buffered.rs stands for, by its pending edit.
use jumprope_rs.Base.{ℕ, ◌+◌, ◌≡◌, true, false, List, [], ◌++◌, arith, length, All, suc}
use jumprope_rs.Utf8.{IsScalar, encode, Fits}
use jumprope_rs.JumpRope.{Rng, JumpRope}
use jumprope_rs.JumpRope.Shape.{HasText}
use jumprope_rs.Buffered.{
  Kind, kind_ins, kind_del, BufferedOp, BufferedOp_new, op_is_empty, Buffered, with_rope,
}

abbrev pub pending_ins : List ℕ → List ℕ → BufferedOp
pending_ins xs cs = record {
  kind = kind_ins;
  ins_content = encode cs;
  start = length xs;
  end = length xs + length cs;
}

abbrev pub pending_del : List ℕ → List ℕ → BufferedOp
pending_del xs m = record {
  kind = kind_del;
  ins_content = [];
  start = length xs;
  end = length xs + length m;
}

-- `Pending op r t`: the edit `op` makes of the text `r` the text `t`.
pub data Pending : BufferedOp → List ℕ → List ℕ → Type 0 where
  inserting :
      (xs cs ys : List ℕ)
      → All IsScalar cs
      → Pending (pending_ins xs cs) (xs ++ ys) (xs ++ (cs ++ ys))
  deleting : (xs m ys : List ℕ) → Pending (pending_del xs m) (xs ++ (m ++ ys)) (xs ++ ys)

-- The rope is well-formed, of nodes of `size` bytes, and has a text of which the pending edit makes
-- `t`, which fits.
pub record Views (size : ℕ) {G : Rng} (b : Buffered G) (t : List ℕ) : Type 0 where
  pub text : List ℕ
  pub has_text : HasText size b.rope text
  pub pending : Pending b.op text t
  pub text_fits : Fits text
  pub fits : Fits t

pub some_range :
    (kind : Kind) (content : List ℕ) (a n : ℕ)
    → op_is_empty (record { kind = kind; ins_content = content; start = a; end = a + suc n })
      ≡ false
unfolding op_is_empty
some_range kind content a n = ground arith

pub no_range :
    (kind : Kind) (content : List ℕ) (a : ℕ)
    → op_is_empty (record { kind = kind; ins_content = content; start = a; end = a + 0 }) ≡ true
unfolding op_is_empty
no_range kind content a = ground arith

pub with_rope-Views :
    (size : ℕ) {G : Rng} (r : JumpRope G) (t : List ℕ)
    → HasText size r t
    → Fits t
    → Views size (with_rope r) t
unfolding with_rope BufferedOp_new encode
with_rope-Views size r t h fits = record {
  text = t;
  has_text = h;
  pending = inserting [] [] t tt;
  text_fits = fits;
  fits = fits;
}
