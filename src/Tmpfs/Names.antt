-- ===== src/Tmpfs/Names.antt =====
-- The names of a directory of fs/tmpfs.c.
use mathlib.Core.Path.{subst}
use grinch.Prelude.{
  ℕ, ◌≡◌, refl, sym, ap, ap₂, ◌∙◌, ◌≢◌, inl, inr, Bool, true, false, Option, none, some, List, [],
  ◌∷◌, arith, ℕ_discrete, if◌then◌else◌, Bool-cases, Option-cases,
}
use grinch.Prelude.Maps.{update, update_self, update_ne, In}
use grinch.Errno.{Result, ok, err, enoent, eexist}
use grinch.Tmpfs.{
  Entry, same_name, find_entry, find_create_entry, new_entry, tmpfs_mkdir, tmpfs_open,
}

pub same_name_self : (a : List ℕ) → same_name a a ≡ true
unfolding same_name
same_name_self [] = refl
same_name_self (x ∷ xs) = ground (arith, same_name_self xs)

same_name-equal : (a b : List ℕ) → same_name a b ≡ true → a ≡ b
unfolding same_name
same_name-equal [] [] h = refl
same_name-equal (x ∷ xs) (y ∷ ys) h = ground (arith, same_name-equal xs ys, h)
same_name-equal [] (y ∷ ys) h = cc h
same_name-equal (x ∷ xs) [] h = cc h

-- No two entries of a list have the same name.
abbrev pub AreDistinct : (ℕ → Entry) → List ℕ → Type 0
AreDistinct entries [] = Unit
AreDistinct entries (entry ∷ rest) =
    ((other : ℕ) → In other rest → (entries other).name ≢ (entries entry).name)
    × AreDistinct entries rest

-- Each entry of a list has the same name in both.
abbrev SameNames : (ℕ → Entry) → (ℕ → Entry) → List ℕ → Type 0
SameNames entries entries' files = (e : ℕ) → In e files → (entries' e).name ≡ (entries e).name

AreDistinct-same :
    (entries entries' : ℕ → Entry) (files : List ℕ)
    → SameNames entries entries' files
    → AreDistinct entries files
    → AreDistinct entries' files
AreDistinct-same entries entries' [] same distinct = tt
AreDistinct-same entries entries' (entry ∷ rest) same (apart, others) = (
  λ other there e. apart other there (sym (same other (inr there)) ∙ e ∙ same entry (inl refl)),
  AreDistinct-same entries entries' rest (λ e there. same e (inr there)) others,
)

find_entry-same :
    (entries entries' : ℕ → Entry) (files path : List ℕ)
    → SameNames entries entries' files
    → find_entry entries' files path ≡ find_entry entries files path
unfolding find_entry
find_entry-same entries entries' [] path same = refl
find_entry-same entries entries' (entry ∷ rest) path same =
    let here = same entry (inl refl) in
    let later = find_entry-same entries entries' rest path (λ e there. same e (inr there)) in
    ap₂ (λ n k. if same_name n path then some entry else k) here later

-- No entry of the list has the name, if none is found.
unfound :
    (entries : ℕ → Entry) (files path : List ℕ)
    → find_entry entries files path ≡ none
    → (other : ℕ) → In other files
    → (entries other).name ≢ path
unfolding find_entry
unfound entries [] path e other there same = absurd there
unfound entries (entry ∷ rest) path e other there same =
    elim (Bool-cases (same_name (entries entry).name path)) [
      | inl h ↦ absurd (ground (arith, h, e))
      | inr h ↦
          let later : find_entry entries rest path ≡ none = ground (arith, h, e) in
          elim there [
            | inl here ↦
                let hit : same_name (entries entry).name path ≡ true =
                  ap (λ k. same_name (entries k).name path) (sym here)
                  ∙ ap (λ n. same_name n path) same
                  ∙ same_name_self path in
                absurd (ground (arith, h, hit))
            | inr within ↦ unfound entries rest path later other within same
          ]
    ]

-- What `tmpfs_open` answers for an entry that is found or not.
abbrev opened : Option ℕ → Result ℕ
opened none = err enoent
opened (some entry) = ok entry

open_found :
    (entries : ℕ → Entry) (dir : ℕ) (name : List ℕ)
    → tmpfs_open entries dir name ≡ opened (find_entry entries (entries dir).files name)
unfolding tmpfs_open find_create_entry
open_found entries dir name = elim (Option-cases (find_entry entries (entries dir).files name)) [
  | inl e ↦ ground (arith, e)
  | inr (x, e) ↦ ground (arith, e)
]

mkdir_exists :
    (kzalloc : Option ℕ) (kstrdup : Bool) (entries : ℕ → Entry) (dir entry : ℕ) (name : List ℕ)
    → find_entry entries (entries dir).files name ≡ some entry
    → tmpfs_mkdir kzalloc kstrdup entries dir name ≡ (entries, err eexist)
unfolding tmpfs_mkdir find_create_entry
mkdir_exists kzalloc kstrdup entries dir entry name e = ground (arith, e)

module _ (entries : ℕ → Entry) (dir entry : ℕ) (name : List ℕ) (directory : Bool)
    (fresh : ¬ In entry (entries dir).files) (apart : entry ≢ dir) where
  -- The entries after `find_create_entry` has made a new one.
  abbrev pub created : ℕ → Entry
  created =
      update (update entries entry (new_entry directory name)) dir
        (record (entries dir) { files = entry ∷ (entries dir).files })

  created-dir : created dir ≡ record (entries dir) { files = entry ∷ (entries dir).files }
  created-dir =
      update_self (update entries entry (new_entry directory name)) dir
        (record (entries dir) { files = entry ∷ (entries dir).files })

  created-entry : created entry ≡ new_entry directory name
  created-entry =
      update_ne (update entries entry (new_entry directory name)) dir entry
        (record (entries dir) { files = entry ∷ (entries dir).files }) apart
      ∙ update_self entries entry (new_entry directory name)

  created-same : SameNames entries created (entries dir).files
  created-same e there =
      let new : e ≢ entry = λ same. fresh (subst (λ x. In x (entries dir).files) same there) in
      elim (ℕ_discrete e dir) [
        | yes same ↦
            ap (λ x. (created x).name) same
            ∙ ap (λ (x : Entry). x.name) created-dir
            ∙ ap (λ x. (entries x).name) (sym same)
        | no other ↦
            ap (λ (x : Entry). x.name)
              (update_ne (update entries entry (new_entry directory name)) dir e
                  (record (entries dir) { files = entry ∷ (entries dir).files }) other
                ∙ update_ne entries entry e (new_entry directory name) new)
      ]

  -- The search in the directory with its new entry.
  find_created :
      (path : List ℕ)
      → find_entry created (created dir).files path
        ≡ (if same_name name path then some entry else find_entry entries (entries dir).files path)
  unfolding find_entry
  find_created path =
      ap (λ (x : Entry). find_entry created x.files path) created-dir
      ∙ ap₂ (λ n k. if same_name n path then some entry else k)
          (ap (λ (x : Entry). x.name) created-entry)
          (find_entry-same entries created (entries dir).files path created-same)

  -- What a new entry changes: its name opens it, every other name opens what it did, a directory of
  -- that name cannot be made again, and the names stay distinct.
  pub record IsCreated (made : (ℕ → Entry) × Result ℕ) : Type 0 where
    pub answer : made.1 ≡ ok entry
    pub opens : tmpfs_open made.0 dir name ≡ ok entry
    pub others :
        (other : List ℕ) → other ≢ name → tmpfs_open made.0 dir other ≡ tmpfs_open entries dir other
    pub exists :
        (kzalloc : Option ℕ) (kstrdup : Bool)
        → tmpfs_mkdir kzalloc kstrdup made.0 dir name ≡ (made.0, err eexist)
    pub distinct : AreDistinct entries (entries dir).files → AreDistinct made.0 (made.0 dir).files

  makes :
      find_entry entries (entries dir).files name ≡ none
      → find_create_entry (some entry) true entries dir name directory true ≡ (created, ok entry)
  unfolding find_create_entry
  makes e = ground (arith, e)

  IsCreated-created :
      find_entry entries (entries dir).files name ≡ none → IsCreated (created, ok entry)
  IsCreated-created e =
      let hit : find_entry created (created dir).files name ≡ some entry =
        find_created name ∙ ground (arith, same_name_self name) in
      record {
        answer = refl;
        opens = open_found created dir name ∙ ap opened hit;
        others = λ other ne.
            let miss : same_name name other ≡ false = elim (Bool-cases (same_name name other)) [
              | inl h ↦ absurd (ne (sym (same_name-equal name other h)))
              | inr h ↦ h
            ] in
            open_found created dir other
            ∙ ap opened (find_created other ∙ ground (arith, miss))
            ∙ sym (open_found entries dir other);
        exists = λ kzalloc kstrdup. mkdir_exists kzalloc kstrdup created dir entry name hit;
        distinct = λ all.
            subst (λ (x : Entry). AreDistinct created x.files) (sym created-dir)
              (
                (λ other there same. unfound entries (entries dir).files name e other there (
                    sym (created-same other there)
                    ∙ same
                    ∙ ap (λ (x : Entry). x.name) created-entry)),
                AreDistinct-same entries created (entries dir).files created-same all,
              );
      }

  -- If a directory has no entry of a name and there is memory, `find_create_entry` makes one: the
  -- name then opens it, every other name opens what it did before, a directory of the name cannot be
  -- made again, and distinct names stay distinct.
  pub find_create_entry_lem :
      find_entry entries (entries dir).files name ≡ none
      → IsCreated (find_create_entry (some entry) true entries dir name directory true)
  find_create_entry_lem e = subst IsCreated (sym (makes e)) (IsCreated-created e)
