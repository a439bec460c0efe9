-- ===== src/Text/Path/Tidy.antt =====
-- libyod/common.c: what `convpath` makes of the parts of a path, and the form of its result.
use libyod.Prelude.{
  ℕ, ◌≡◌, refl, sym, ap, ◌∙◌, ◌≢◌, inl, inr, Bool, true, false, Option, none, some, List, [], ◌∷◌,
  ◌++◌, arith, if◌then◌else◌, ◌==◌, ◌||◌, Bool-cases, subst,
}
use libyod.Text.Path.{is_separator, is_skipped, convpath_loop, drop_last, convpath}

-- A slash or a backslash.
abbrev pub slash : ℕ → Bool
slash c = c == 47 || c == 92

-- What stands in front of the first slash, and each slash with what stands behind it.
abbrev pub parts : List ℕ → List ℕ × List (ℕ × List ℕ)
parts [] = ([], [])
parts (c ∷ path) =
    let (part, more) = parts path in if slash c then ([], (c, part) ∷ more) else (c ∷ part, more)

-- A part without the dots in front.
abbrev pub undotted : List ℕ → List ℕ
undotted [] = []
undotted (c ∷ cs) = if c == 46 then undotted cs else c ∷ cs

abbrev pub is_empty : List ℕ → Bool
is_empty [] = true
is_empty (c ∷ cs) = false

abbrev pub or_else : Option ℕ → ℕ → ℕ
or_else none c = c
or_else (some d) c = d

-- The parts that are not empty without these dots, each behind one slash: the first one since the last
-- such part. `first` is that slash, if it has been passed.
abbrev pub joined : Option ℕ → List (ℕ × List ℕ) → List ℕ
joined first [] = []
joined first ((c, part) ∷ more) =
    let front = or_else first c in
    let text = undotted part in
    (if is_empty text then [] else front ∷ text)
    ++ joined (if is_empty text then some front else none) more

-- No slash has a dot or a slash behind it; `flag` tells whether one stands in front.
abbrev pub Tidy : Bool → List ℕ → Type 0
Tidy flag [] = Unit {0}
Tidy flag (c ∷ cs) = (flag ≡ true → (c ≢ 46) × (c ≢ 47) × (c ≢ 92)) × Tidy (slash c) cs

-- Whether a slash stands at the end.
abbrev pub ends_open : Bool → List ℕ → Bool
ends_open flag [] = flag
ends_open flag (c ∷ cs) = ends_open (slash c) cs

-- The same with the tests of the code.
-- No separator has a dot or a separator behind it; `flag` tells whether one stands in front.
abbrev Neat : Bool → List ℕ → Type 0
Neat flag [] = Unit {0}
Neat flag (c ∷ cs) = (flag ≡ true → is_skipped c ≡ false) × Neat (is_separator c) cs

-- Whether a separator stands at the end.
abbrev ended_at : Bool → List ℕ → Bool
ended_at flag [] = flag
ended_at flag (c ∷ cs) = ended_at (is_separator c) cs

kept_is_no_separator : (c : ℕ) → is_skipped c ≡ false → is_separator c ≡ false
unfolding is_skipped is_separator
kept_is_no_separator c h = ground arith

convpath_loop-Neat :
    (flag : Bool) (path : List ℕ)
    → let (out, last) = convpath_loop flag path in Neat flag out × (last ≡ ended_at flag out)
unfolding convpath_loop
convpath_loop-Neat flag [] = (tt, refl)
convpath_loop-Neat false (c ∷ path) =
    let (tidy, last) = convpath_loop-Neat (is_separator c) path in ((λ e. cc, tidy), last)
convpath_loop-Neat true (c ∷ path) = elim (Bool-cases (is_skipped c)) [
  | inl skip ↦ rw skip (convpath_loop-Neat true path)
  | inr keep ↦
      let r = convpath_loop false path in
      let (tidy, last) =
        subst (λ b. Neat b r.0 × (r.1 ≡ ended_at b r.0)) (sym (kept_is_no_separator c keep))
          (convpath_loop-Neat false path) in
      rw keep ((λ e. keep, tidy), last)
]

convpath_loop-same :
    (flag : Bool) (path : List ℕ)
    → Neat flag path
    → convpath_loop flag path ≡ (path, ended_at flag path)
unfolding convpath_loop
convpath_loop-same flag [] tidy = refl
convpath_loop-same false (c ∷ path) (here, tidy) =
    rw (convpath_loop-same (is_separator c) path tidy)
convpath_loop-same true (c ∷ path) (here, tidy) =
    let keep = here refl in
    let sep = kept_is_no_separator c keep in
    let ih : convpath_loop false path ≡ (path, ended_at false path) =
      convpath_loop-same false path (rw (← sep) tidy) in
    rw (keep, ih, sep)

-- A separator at the end is taken away, and none stands in front of it.
drop_last-Neat :
    (flag : Bool) (c : ℕ) (cs : List ℕ)
    → Neat flag (c ∷ cs)
    → ended_at flag (c ∷ cs) ≡ true
    → Neat flag (drop_last (c ∷ cs)) × (ended_at false (drop_last (c ∷ cs)) ≡ false)
unfolding drop_last
drop_last-Neat flag c [] tidy ended = (tt, refl)
drop_last-Neat flag c (d ∷ []) (here, (next, _)) ended = (
  (here, tt),
  elim (Bool-cases (is_separator c)) [
    | inl sep ↦ cc (kept_is_no_separator d (next sep), ended)
    | inr plain ↦ plain
  ],
)
drop_last-Neat flag c (d ∷ e ∷ cs) (here, tidy) ended =
    let (tidy', closed) = drop_last-Neat (is_separator c) d (e ∷ cs) tidy ended in
    ((here, tidy'), closed)

close :
    (out : List ℕ) (last : Bool)
    → Neat false out
    → last ≡ ended_at false out
    → let path = if last then drop_last out else out in
      Neat false path × (ended_at false path ≡ false)
close out false tidy e = (tidy, sym e)
close [] true tidy e = cc
close (c ∷ cs) true tidy e = drop_last-Neat false c cs tidy (sym e)

convpath-Neat :
    (path : List ℕ) → Neat false (convpath path) × (ended_at false (convpath path) ≡ false)
unfolding convpath
convpath-Neat path =
    let (tidy, last) = convpath_loop-Neat false path in
    close (convpath_loop false path).0 _ tidy last

convpath-same :
    (path : List ℕ) → Neat false path → ended_at false path ≡ false → convpath path ≡ path
unfolding convpath
convpath-same path tidy closed = rw (convpath_loop-same false path tidy, closed)

kept_plain : (c : ℕ) → is_skipped c ≡ false → (c ≢ 46) × (c ≢ 47) × (c ≢ 92)
unfolding is_skipped is_separator
kept_plain c h = (λ e. ground arith, λ e. ground arith, λ e. ground arith)

Neat→Tidy : (flag : Bool) (cs : List ℕ) → Neat flag cs → Tidy flag cs
unfolding is_separator
Neat→Tidy flag [] h = tt
Neat→Tidy flag (c ∷ cs) (here, h) = (λ e. kept_plain c (here e), Neat→Tidy (slash c) cs h)

ended_at-ends_open : (flag : Bool) (cs : List ℕ) → ended_at flag cs ≡ ends_open flag cs
unfolding is_separator
ended_at-ends_open flag [] = refl
ended_at-ends_open flag (c ∷ cs) = ended_at-ends_open (slash c) cs

-- The loop against the parts.
abbrev closed : List ℕ × Bool → List ℕ
closed (out, last) = if last then drop_last out else out

closed_two :
    (c d : ℕ) (out : List ℕ) (last : Bool) → closed (c ∷ d ∷ out, last) ≡ c ∷ closed (d ∷ out, last)
unfolding drop_last
closed_two c d out true = refl
closed_two c d out false = refl

closed_behind :
    (c : ℕ) (path : List ℕ)
    → closed (c ∷ (convpath_loop false path).0, (convpath_loop false path).1)
      ≡ c ∷ closed (convpath_loop false path)
unfolding convpath_loop drop_last
closed_behind c [] = refl
closed_behind c (d ∷ path) = let r = convpath_loop (is_separator d) path in closed_two c d r.0 r.1

abbrev Joins : List ℕ → Type 0
Joins path =
    (closed (convpath_loop false path) ≡ (parts path).0 ++ joined none (parts path).1)
    × ((p : ℕ)
        → closed (p ∷ (convpath_loop true path).0, (convpath_loop true path).1)
          ≡ joined none ((p, (parts path).0) ∷ (parts path).1))

convpath_loop-joined : (path : List ℕ) → Joins path
unfolding convpath_loop drop_last is_separator is_skipped
convpath_loop-joined [] = (refl, λ p. refl)
convpath_loop-joined (c ∷ path) =
    let (plain, behind) = convpath_loop-joined path in
    let keep = closed_behind c path in
    elim (Bool-cases (slash c)) [
      | inl sep ↦ (
        rw sep (behind c),
        λ p. let skip : (c == 46 || true) ≡ true = ground arith in rw (sep, skip) (behind p),
      )
      | inr other ↦ (
        rw other (keep ∙ ap (λ z. c ∷ z) plain),
        λ p. elim (Bool-cases (c == 46)) [
          | inl dot ↦ rw (other, dot) (behind p)
          | inr text ↦
              rw (other, text)
                (closed_two p c (convpath_loop false path).0 (convpath_loop false path).1
                  ∙ ap (λ z. p ∷ z) keep
                  ∙ ap (λ z. p ∷ c ∷ z) plain)
        ],
      )
    ]

convpath-joined : (path : List ℕ) → convpath path ≡ (parts path).0 ++ joined none (parts path).1
unfolding convpath
convpath-joined path = (convpath_loop-joined path).0

-- A path from `convpath` is what stands in front of the first slash, and then each part between
-- slashes that is not empty without the dots in front of it, in order, behind one slash. So it has no
-- dot and no slash behind a slash, and no slash at its end, and `convpath` keeps it as it is.
pub convpath_idempotent :
    (path : List ℕ)
    → (convpath path ≡ (parts path).0 ++ joined none (parts path).1)
      × Tidy false (convpath path)
      × (ends_open false (convpath path) ≡ false)
      × (convpath (convpath path) ≡ convpath path)
convpath_idempotent path =
    let (tidy, shut) = convpath-Neat path in
    (
      convpath-joined path,
      Neat→Tidy false (convpath path) tidy,
      sym (ended_at-ends_open false (convpath path)) ∙ shut,
      convpath-same (convpath path) tidy shut,
    )
