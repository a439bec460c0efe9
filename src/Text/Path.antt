-- ===== src/Text/Path.antt =====
-- libyod/common.c: `convpath`, which takes doubled separators and dots behind a separator out of a path.
-- The buffer `conv` is given; the text in it is without its end.
pub mod Tidy
use libyod.Prelude.{
  ℕ, zero, suc, ◌+◌, ◌-◌, ◌*◌, ◌/◌, ◌%◌, ◌^◌, ◌≤◌, ◌<◌, bit_and, bit_or, bit_xor, ◌≡◌, refl, sym,
  ap, ◌∙◌, subst, ◌≢◌, ◌↔◌, ◌⊎◌, inl, inr, Bool, true, false, not, ◌&&◌, ◌||◌, Option, none, some,
  List, [], ◌∷◌, ◌++◌, map, append-nil, append_assoc, arith, dec_lt, ℕ_discrete, ltb, leb, ◌==◌,
  if◌then◌else◌, ltb→lt, lt→ltb, leb→le, ==_iff, tests, Bool-cases, Option-cases, length, get_elem?,
  set, length-append, length-snoc, length-set, get_elem?-set_self, get_elem?-set_ne, get_or, take,
  drop, drop-append, take-append, take-append_le, drop-append_le, take-append_ge, drop-append_ge,
  length-take, length-drop, replicate, length-replicate, get_elem?-replicate, ◌>>=◌, IsByte, All,
  store, store_at, get_elem?-drop,
}

unfoldable pub is_separator : ℕ → Bool
is_separator c = c == 47 || c == 92

-- `*p != '.' && *p != '/' && *p != '\\'` fails.
unfoldable pub is_skipped : ℕ → Bool
is_skipped c = c == 46 || is_separator c

-- The characters that the loop writes, and the last `flag`.
unfoldable pub convpath_loop : Bool → List ℕ → List ℕ × Bool
convpath_loop flag [] = ([], flag)
convpath_loop flag (c ∷ path) =
    let skip = flag && is_skipped c in
    let (out, last) = convpath_loop (if flag then skip else is_separator c) path in
    (if skip then out else c ∷ out, last)

-- `-- v`
unfoldable pub drop_last : List ℕ → List ℕ
drop_last [] = []
drop_last (c ∷ []) = []
drop_last (c ∷ d ∷ cs) = c ∷ drop_last (d ∷ cs)

unfoldable pub convpath : List ℕ → List ℕ
convpath path = let (out, flag) = convpath_loop false path in if flag then drop_last out else out
