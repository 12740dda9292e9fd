-- ===== src/Store/Tree/Pages.antt =====
-- The pages of MaterializeTree of internal/store/store.go.
use docstore.Base.{
  ℕ, zero, suc, String, ◌≡◌, ◌≢◌, refl, sym, ap, subst, ◌∙◌, inl, inr, Bool, true, false, not,
  Option, List, [], ◌∷◌, ◌++◌, ◌==◌, keep, take, length, ltb, nat_eq, if◌then◌else◌, All, All-keep,
  All-kept, Bool-cases, eq_iff, arith,
}
use docstore.Base.Order.{text_leb, text_leb-after, text_leb_refl, text_leb-total, text_leb_trans}
use docstore.Store.Tables.{Db}
use docstore.Store.Tree.{TreeEntry, is_past, tree_of, limit_or_default, materialize_tree}
use docstore.Store.Tree.Rises.{Below, Rises, tree_of-Rises}

-- The last entry of a page.
abbrev pub last_path : String → List TreeEntry → String
last_path path [] = path
last_path path (e ∷ es) = last_path e.path es

is_past-Below :
    (path : String) (e : TreeEntry) → path ≢ "" → is_past path e ≡ not (text_leb e.path path)
unfolding is_past
is_past-Below path e h = ground (arith, h, eq_iff path "")

-- All of rising entries stand past a path when the first does.
abbrev After : String → List TreeEntry → Type 0
After path es = All (λ (f : TreeEntry). Below path f.path) es

keep_all :
    (path : String) (es : List TreeEntry) → path ≢ "" → After path es → keep (is_past path) es ≡ es
keep_all path [] h a = refl
keep_all path (e ∷ es) h a =
    let past : is_past path e ≡ true = is_past-Below path e h ∙ rw a.0 refl in
    rw past (ap (λ rest. e ∷ rest) (keep_all path es h a.1))

last_path-leb :
    (n : ℕ) (path : String) (es : List TreeEntry)
    → After path es
    → text_leb path (last_path path (take n es)) ≡ true
last_path-leb zero path es a = text_leb_refl path
last_path-leb (suc n) path [] a = text_leb_refl path
last_path-leb (suc n) path (e ∷ es) a = last_path-at_most n path e.path es a.0 a.1
  where
    last_path-at_most :
        (n : ℕ) (path here : String) (es : List TreeEntry)
        → Below path here
        → After path es
        → text_leb path (last_path here (take n es)) ≡ true
    last_path-at_most zero path here es b a = text_leb-total here path b
    last_path-at_most (suc n) path here [] b a = text_leb-total here path b
    last_path-at_most (suc n) path here (e ∷ es) b a = last_path-at_most n path e.path es a.0 a.1

-- A page and what stands past its last path make up rising entries that stand past a path.
cut :
    (n : ℕ) (path : String) (es : List TreeEntry)
    → After path es
    → Rises es
    → last_path path (take n es) ≢ ""
    → es ≡ take n es ++ keep (is_past (last_path path (take n es))) es
cut zero path es a r h = sym (keep_all path es h a)
cut (suc n) path [] a r h = refl
cut (suc n) path (e ∷ es) a r h =
    let l = last_path e.path (take n es) in
    let behind : is_past l e ≡ false =
      is_past-Below l e h ∙ rw (last_path-leb n e.path es r.0) refl in
    rw behind (ap (λ rest. e ∷ rest) (cut n e.path es r.0 r.1 h))

-- What stands past a path that itself stands past another.
keep_past :
    (path far : String) (es : List TreeEntry)
    → ((e : TreeEntry) → is_past far e ≡ true → is_past path e ≡ true)
    → keep (is_past far) (keep (is_past path) es) ≡ keep (is_past far) es
keep_past path far [] f = refl
keep_past path far (e ∷ es) f =
    let ih = keep_past path far es f in
    elim (Bool-cases (is_past path e)) [
      | inl t ↦ rw t (ground (arith, ih))
      | inr t ↦ rw t (ground (arith, ih, f e))
    ]

keep-Rises : (p : TreeEntry → Bool) (es : List TreeEntry) → Rises es → Rises (keep p es)
keep-Rises p [] r = tt
keep-Rises p (e ∷ es) r = elim (Bool-cases (p e)) [
  | inl t ↦ rw t (All-kept _ p es r.0, keep-Rises p es r.1)
  | inr t ↦ rw t (keep-Rises p es r.1)
]

-- What stands past a path that is not before one past the cursor stands past the cursor.
past_further :
    (after_path far : String) (x e : TreeEntry)
    → is_past after_path x ≡ true
    → text_leb x.path far ≡ true
    → far ≢ ""
    → is_past far e ≡ true
    → is_past after_path e ≡ true
past_further after_path far x e h le n p = elim (Bool-cases (after_path == "")) [
  | inl t ↦ unfold is_past in rw t refl
  | inr t ↦
      let apart : after_path ≢ "" = λ s. cc (sym t ∙ (eq_iff after_path "").1 s) in
      let behind =
        text_leb-total x.path after_path (ground (arith, h, is_past-Below after_path x apart)) in
      let above : Below far e.path = ground (arith, p, is_past-Below far e n) in
      is_past-Below after_path e apart
      ∙ rw
          (text_leb-after e.path after_path far (text_leb_trans after_path x.path far behind le)
            above)
          refl
]

positive : (limit : ℕ) → (m : ℕ) × (limit_or_default limit ≡ suc m)
unfolding limit_or_default
positive zero = (99, refl)
positive (suc n) = (n, refl)

-- What stands in a listing past a cursor is a page of it and what stands past the page's last path.
resumed :
    (after_path : String) (es : List TreeEntry) (m : ℕ) (xs : List TreeEntry)
    → keep (is_past after_path) es ≡ xs
    → Rises xs
    → All (λ x. is_past after_path x ≡ true) xs
    → last_path after_path (take (suc m) xs) ≢ ""
    → xs ≡ take (suc m) xs ++ keep (is_past (last_path after_path (take (suc m) xs))) es
resumed after_path es m [] same r a n = sym same
resumed after_path es m (x ∷ rest) same r a n =
    let l = last_path x.path (take m rest) in
    let le = last_path-leb m x.path rest r.0 in
    let behind : is_past l x ≡ false = is_past-Below l x n ∙ rw le refl in
    let later : keep (is_past l) es ≡ keep (is_past l) rest =
      sym (keep_past after_path l es (λ e. past_further after_path l x e a.0 le n))
      ∙ ap (keep (is_past l)) same
      ∙ rw behind refl in
    ap (λ zs. x ∷ zs) (cut m x.path rest r.0 r.1 n ∙ rw later refl)

-- The smaller of two numbers.
abbrev pub smaller : ℕ → ℕ → ℕ
smaller m n = if ltb m n then m else n

length-take : (n : ℕ) (es : List TreeEntry) → length (take n es) ≡ smaller n (length es)
length-take zero [] = refl
length-take zero (e ∷ es) = ground arith
length-take (suc n) [] = ground arith
length-take (suc n) (e ∷ es) = ground (arith, length-take n es)

limit_or_default_lem :
    (limit : ℕ) → limit_or_default limit ≡ (if nat_eq limit 0 then 100 else limit)
unfolding limit_or_default
limit_or_default_lem zero = refl
limit_or_default_lem (suc n) = ground arith

-- Paging through a listing misses nothing and repeats nothing: the entries past a cursor are the page
-- that MaterializeTree returns for it, whatever the limit, followed by the entries past the page's
-- last path (past the cursor itself, when the page is empty), which must not be the empty text, since
-- that stands for no cursor. And the page is full: it has as many entries as the limit says (100 for
-- a limit of 0), or all that stand past the cursor when they are fewer.
pub keep-materialize_tree :
    (db : Db) (repo branch : String) (at : Option ℕ) (limit : ℕ) (after_path : String)
    → last_path after_path (materialize_tree db repo branch at limit after_path) ≢ ""
    → (keep (is_past after_path) (tree_of db repo branch at)
        ≡ materialize_tree db repo branch at limit after_path
          ++ keep
              (is_past (last_path after_path (materialize_tree db repo branch at limit after_path)))
              (tree_of db repo branch at))
      × (length (materialize_tree db repo branch at limit after_path)
          ≡ smaller
              (if nat_eq limit 0 then 100 else limit)
              (length (keep (is_past after_path) (tree_of db repo branch at))))
unfolding materialize_tree
keep-materialize_tree db repo branch at limit after_path n =
    let (m, e) = positive limit in
    let tree = tree_of db repo branch at in
    let xs = keep (is_past after_path) tree in
    (
      subst
          (λ k.
            last_path after_path (take k xs) ≢ ""
            → xs ≡ take k xs ++ keep (is_past (last_path after_path (take k xs))) tree)
          (sym e)
          (resumed after_path tree m xs refl
            (keep-Rises (is_past after_path) tree (tree_of-Rises db repo branch at))
            (All-keep _ (is_past after_path) tree (λ x t. t)))
          n,
      length-take (limit_or_default limit) xs
          ∙ ap (λ k. smaller k (length xs)) (limit_or_default_lem limit),
    )
