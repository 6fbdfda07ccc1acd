-- ===== src/Migrations/Applied/Lookups.antt =====
-- The versions of the migrations of pkg/storage/migrations.go, and what is recorded of a version.
use progo_a2a.Prelude.{
  ℕ, suc, ◌≤◌, String, ◌≡◌, ◌⊎◌, refl, sym, ap, subst, arith, Option, none, some, List, [], ◌∷◌,
  ◌++◌, if◌then◌else◌, inl, inr, ok, ◌>>=◌, of_option, is_some, bind-ok, then-ok, In, here, there,
}
use progo_a2a.Migrations.{
  Migration, Recorded, Entry, check_versions, sort_versions, load_migrations, record_of,
  applied_version, known_version, check_name, check_recorded, accept_migrations,
  unreadable_directory, read_entries,
}

accepted-check_versions :
    (found ms : List Migration) → accept_migrations found ≡ ok ms → check_versions 1 ms ≡ ok tt
accepted-check_versions [] ms h = absurd (cc h)
accepted-check_versions (m ∷ found) ms h =
    let (checked, same) =
      then-ok (check_versions 1 (sort_versions (m ∷ found))) (ok (sort_versions (m ∷ found))) h in
    let e : sort_versions (m ∷ found) ≡ ms = cc same in rw (sym e) checked

pub load_migrations-check_versions :
    (sha256 : String → String) (directory root : Option (List Entry)) (ms : List Migration)
    → load_migrations sha256 directory root ≡ ok ms
    → check_versions 1 ms ≡ ok tt
unfolding load_migrations
load_migrations-check_versions sha256 directory root ms h =
    let (entries, _, h1) =
      bind-ok (of_option unreadable_directory (if is_some directory then directory else root))
        (λ entries. read_entries sha256 [] entries >>= accept_migrations) h in
    let (found, _, h2) = bind-ok (read_entries sha256 [] entries) accept_migrations h1 in
    accepted-check_versions found ms h2

check_versions-le :
    (n : ℕ) (ms : List Migration) (m : Migration)
    → check_versions n ms ≡ ok tt
    → In m ms
    → n ≤ m.version
unfolding check_versions
check_versions-le n [] m h i = elim i [ ]
check_versions-le n (k ∷ ms) m h (here p) =
    let e : m.version ≡ k.version = ap (λ x. x.version) p in ground (arith, h, e)
check_versions-le n (k ∷ ms) m h (there i) = ground (arith, h, i, check_versions-le (suc n) ms m)

-- A version has one migration.
pub known_version-In :
    (n : ℕ) (ms : List Migration) (m : Migration)
    → check_versions n ms ≡ ok tt
    → In m ms
    → known_version m.version ms ≡ some m
unfolding check_versions
known_version-In n [] m h i = elim i [ ]
known_version-In n (k ∷ ms) m h (here p) =
    let e : m.version ≡ k.version = ap (λ x. x.version) p in ground (arith, h, e, p)
known_version-In n (k ∷ ms) m h (there i) =
    ground (arith, h, i, check_versions-le (suc n) ms m, known_version-In (suc n) ms m)

pub applied_version-append :
    (v : ℕ) (r : Recorded) (recorded more : List Recorded)
    → applied_version v recorded ≡ some r
    → applied_version v (recorded ++ more) ≡ some r
applied_version-append v r [] more h = absurd (cc h)
applied_version-append v r (s ∷ recorded) more h =
    ground (arith, h, applied_version-append v r recorded more)

pub applied_version-new :
    (r : Recorded) (recorded : List Recorded)
    → applied_version r.version recorded ≡ none
    → applied_version r.version (recorded ++ r ∷ []) ≡ some r
applied_version-new r [] h = ground arith
applied_version-new r (s ∷ recorded) h = ground (arith, h, applied_version-new r recorded)

pub In-append : {A : Type 0} (xs : List A) (x y : A) → In x (xs ++ y ∷ []) → In x xs ⊎ (x ≡ y)
In-append [] x y (here p) = inr p
In-append [] x y (there i) = elim i [ ]
In-append (z ∷ xs) x y (here p) = inl (here p)
In-append (z ∷ xs) x y (there i) = elim (In-append xs x y i) [
  | inl j ↦ inl (there j)
  | inr p ↦ inr p
]

pub check_recorded-In :
    (ms : List Migration) (recorded : List Recorded) (r : Recorded)
    → check_recorded ms recorded ≡ ok tt
    → In r recorded
    → check_name r (known_version r.version ms) ≡ ok tt
unfolding check_recorded
check_recorded-In ms [] r h i = elim i [ ]
check_recorded-In ms (s ∷ recorded) r h (here p) =
    rw p (then-ok (check_name s (known_version s.version ms)) (check_recorded ms recorded) h).0
check_recorded-In ms (s ∷ recorded) r h (there i) =
    check_recorded-In ms recorded r
      (then-ok (check_name s (known_version s.version ms)) (check_recorded ms recorded) h).1 i

pub In-check_recorded :
    (ms : List Migration) (recorded : List Recorded)
    → ((r : Recorded) → In r recorded → check_name r (known_version r.version ms) ≡ ok tt)
    → check_recorded ms recorded ≡ ok tt
unfolding check_recorded
In-check_recorded ms [] h = refl
In-check_recorded ms (s ∷ recorded) h =
    rw (h s (here refl)) (In-check_recorded ms recorded (λ r i. h r (there i)))

pub In-cons :
    {A : Type 0} (P : A → Type 0) (x : A) (xs : List A)
    → P x
    → ((y : A) → In y xs → P y)
    → (y : A) → In y (x ∷ xs)
    → P y
In-cons P x xs p f y (here e) = subst P (sym e) p
In-cons P x xs p f y (there i) = f y i

-- A migration is recorded at the end, or was before with its checksum.
abbrev pub Done : List Recorded → List Recorded → Migration → Type 0
Done applied after m =
    ((r : Recorded) × (applied_version m.version applied ≡ some r) × (r.checksum ≡ m.checksum))
    ⊎ (applied_version m.version after ≡ some (record_of m))
