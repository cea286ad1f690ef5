-- ===== src/Prisma/Laws.antt =====
-- What a lookup finds after a write.
use vowgrid_api.Common.{
  ◌≡◌, refl, Bool, true, Option, none, some, List, [], ◌∷◌, ◌++◌, find, if◌then◌else◌, arith,
  filter-append, sym, ◌∙◌, Option-cases, inl, inr,
}
use vowgrid_api.Prisma.Defs.{Prisma, IsLawful, replace}

-- A row that was found, after the update that may have met it.
abbrev pub amend : {A : Type 0} → (A → Bool) → (A → A) → Option A → Option A
amend q f none = none
amend q f (some r) = some (if q r then f r else r)

-- A lookup in a table with one row more.
abbrev pub or_new : {A : Type 0} → (A → Bool) → A → Option A → Option A
or_new p r (some s) = some s
or_new p r none = if p r then some r else none

find-replace :
    {A : Type 0} (p q : A → Bool) (f : A → A) (rows : List A)
    → ((r : A) → p (f r) ≡ p r)
    → find p (replace q f rows) ≡ amend q f (find p rows)
find-replace p q f [] keeps = refl
find-replace p q f (r ∷ rows) keeps = ground (arith, find-replace p q f rows keeps, keeps r)

find-append :
    {A : Type 0} (p : A → Bool) (r : A) (rows : List A)
    → find p (rows ++ r ∷ []) ≡ or_new p r (find p rows)
find-append p r [] = refl
find-append p r (s ∷ rows) = ground (arith, find-append p r rows)

find_sound : {A : Type 0} (p : A → Bool) (rows : List A) {r : A} → find p rows ≡ some r → p r ≡ true
find_sound p [] h = cc
find_sound p (s ∷ rows) {r} h = ground (arith, find_sound p rows {r = r})

find-none :
    {A : Type 0} (p q : A → Bool) (rows : List A)
    → ((r : A) → p r ≡ true → q r ≡ true)
    → find q rows ≡ none
    → find p rows ≡ none
find-none p q [] weaker h = refl
find-none p q (r ∷ rows) weaker h = ground (arith, find-none p q rows weaker, weaker r)

module _ (db : Prisma) (L : IsLawful db) where
  pub find_first-update :
      {A : Type 0} (p q : A → Bool) (f : A → A) (t : db.Table A)
      → ((r : A) → p (f r) ≡ p r)
      → db.find_first p (db.update q f t) ≡ amend q f (db.find_first p t)
  find_first-update p q f t keeps =
      rw (L.find_first-eq, L.rows-update, L.find_first-eq) (find-replace p q f (db.rows t) keeps)

  pub find_first-create :
      {A : Type 0} (p : A → Bool) (r : A) (t : db.Table A)
      → db.find_first p (db.create r t) ≡ or_new p r (db.find_first p t)
  find_first-create p r t =
      rw (L.find_first-eq, L.rows-create, L.find_first-eq) (find-append p r (db.rows t))

  pub find_first_sound :
      {A : Type 0} (p : A → Bool) (t : db.Table A) {r : A} → db.find_first p t ≡ some r → p r ≡ true
  find_first_sound p t h = find_sound p (db.rows t) (rw L.find_first-eq at h)

  -- The row that is updated, found by the condition of the update.
  pub find_first-updated :
      {A : Type 0} (p : A → Bool) (f : A → A) (t : db.Table A)
      → ((r : A) → p (f r) ≡ p r)
      → {r : A} → db.find_first p t ≡ some r
      → db.find_first p (db.update p f t) ≡ some (f r)
  find_first-updated p f t keeps {r} found =
      rw (find_first-update p p f t keeps, found) (rw (find_first_sound p t found) refl)

  pub find_many-create :
      {A : Type 0} (p : A → Bool) (r : A) (t : db.Table A)
      → db.find_many p (db.create r t) ≡ db.find_many p t ++ (if p r then r ∷ [] else [])
  find_many-create p r t =
      rw (L.find_many-eq, L.rows-create, L.find_many-eq) (rw (filter-append p (db.rows t) (r ∷ [])))

  find_first-missing :
      {A : Type 0} (p q : A → Bool) (t : db.Table A)
      → ((r : A) → p r ≡ true → q r ≡ true)
      → db.find_first q t ≡ none
      → db.find_first p t ≡ none
  find_first-missing p q t weaker missing =
      rw L.find_first-eq (find-none p q (db.rows t) weaker (rw L.find_first-eq at missing))

  -- A row that meets the stronger condition is a row that meets the weaker one.
  pub find_first-weaken :
      {A : Type 0} (p q : A → Bool) (t : db.Table A)
      → ((r : A) → p r ≡ true → q r ≡ true)
      → {r : A} → db.find_first p t ≡ some r
      → (s : A) × (db.find_first q t ≡ some s)
  find_first-weaken p q t weaker found = elim (Option-cases (db.find_first q t)) [
    | inl missing ↦ absurd (none-ne-some (sym (find_first-missing p q t weaker missing) ∙ found))
    | inr s ↦ s
  ]
    where
      none-ne-some : {A : Type 0} {r : A} → ¬ (◌≡◌ {A = Option A} none (some r))
      none-ne-some e = cc
