-- ===== src/Retention/Stored/Rows.antt =====
-- The rows of the two tables of the stored retention under the statements.
use astarte_device_sdk_rust.Common.{
  ◌&&◌, str_beq_iff, str_beq, ℕ, zero, suc, ◌-◌, ◌≡◌, refl, ap, ◌≢◌, Bool, true, false, not, none,
  List, [], ◌∷◌, map, arith, any, length, drop, retain, All, All-retain, nat_eq, Str, str_eq,
  option_eq, int_eq,
}
use astarte_device_sdk_rust.Retention.{PublishId, id_beq}
use astarte_device_sdk_rust.Retention.Stored.{MappingRow, RetentionPublish, is_row_of}
use astarte_device_sdk_rust.Retention.Stored.Tables.{id_before, find_row, insert_row}

abbrev pub IsBefore : PublishId → List RetentionPublish → Type 0
IsBefore id l = All (λ q. id_before id q.id ≡ true) l

-- In the order of the primary key, no key twice.
abbrev pub IsSorted : List RetentionPublish → Type 0
IsSorted [] = Unit
IsSorted (p ∷ rest) = IsBefore p.id rest × IsSorted rest

-- There is a mapping of that interface and path.
abbrev pub HasMapping : List MappingRow → RetentionPublish → Type 0
HasMapping mappings p = find_row p.interface p.path mappings ≢ none

-- No two mappings have the same interface and path.
abbrev pub HasUniqueRows : List MappingRow → Type 0
HasUniqueRows [] = Unit
HasUniqueRows (row ∷ rest) =
    All (λ r. is_row_of row.interface row.path r ≡ false) rest × HasUniqueRows rest

pub IsSorted-retain :
    (f : RetentionPublish → Bool) (l : List RetentionPublish) → IsSorted l → IsSorted (retain f l)
IsSorted-retain f [] h = h
IsSorted-retain f (p ∷ l) h =
    ground (arith, IsSorted-retain f l h.1, All-retain (λ q. id_before p.id q.id ≡ true) f l h.0)

pub IsSorted-drop : (n : ℕ) (l : List RetentionPublish) → IsSorted l → IsSorted (drop n l)
IsSorted-drop zero l h = h
IsSorted-drop (suc n) [] h = h
IsSorted-drop (suc n) (p ∷ l) h = IsSorted-drop n l h.1

pub All-drop {κ} :
    (P : RetentionPublish → Type κ) (n : ℕ) (l : List RetentionPublish) → All P l → All P (drop n l)
All-drop P zero l h = h
All-drop P (suc n) [] h = h
All-drop P (suc n) (p ∷ l) h = All-drop P n l h.1

module _ (f : RetentionPublish → RetentionPublish)
    (same_id : (p : RetentionPublish) → (f p).id ≡ p.id) where
  IsBefore-map :
      (id : PublishId) (l : List RetentionPublish) → IsBefore id l → IsBefore id (map f l)
  IsBefore-map id [] h = h
  IsBefore-map id (p ∷ l) h = (rw (same_id p) h.0, IsBefore-map id l h.1)

  pub IsSorted-map : (l : List RetentionPublish) → IsSorted l → IsSorted (map f l)
  IsSorted-map [] h = h
  IsSorted-map (p ∷ l) h = (rw (same_id p) (IsBefore-map p.id l h.0), IsSorted-map l h.1)

pub All-map {κ} :
    (P : RetentionPublish → Type κ) (f : RetentionPublish → RetentionPublish)
    (l : List RetentionPublish)
    → ((p : RetentionPublish) → P p → P (f p))
    → All P l
    → All P (map f l)
All-map P f [] k h = h
All-map P f (p ∷ l) k h = (k p h.0, All-map P f l k h.1)

pub length-map :
    (f : RetentionPublish → RetentionPublish) (l : List RetentionPublish)
    → length (map f l) ≡ length l
length-map f [] = refl
length-map f (p ∷ l) = ap suc (length-map f l)

pub length-drop : (n : ℕ) (l : List RetentionPublish) → length (drop n l) ≡ length l - n
length-drop zero l = omega arith
length-drop (suc n) [] = omega arith
length-drop (suc n) (p ∷ l) = omega (arith, length-drop n l)

pub id_before_trans :
    (a b c : PublishId) → id_before a b ≡ true → id_before b c ≡ true → id_before a c ≡ true
id_before_trans a b c h k = ground arith

id_before-total :
    (a b : PublishId) → id_beq b a ≡ false → id_before a b ≡ false → id_before b a ≡ true
id_before-total a b h k = ground arith

pub IsBefore-trans :
    (a b : PublishId) (l : List RetentionPublish)
    → id_before a b ≡ true
    → IsBefore b l
    → IsBefore a l
IsBefore-trans a b [] h k = tt
IsBefore-trans a b (q ∷ l) h k = (id_before_trans a b q.id h k.0, IsBefore-trans a b l h k.1)

IsBefore-insert_row :
    (id : PublishId) (p : RetentionPublish) (l : List RetentionPublish)
    → id_before id p.id ≡ true
    → IsBefore id l
    → IsBefore id (insert_row p l)
unfolding insert_row
IsBefore-insert_row id p [] h k = (h, tt)
IsBefore-insert_row id p (q ∷ l) h k = ground (arith, IsBefore-insert_row id p l h k.1, h, k)

pub IsSorted-insert_row :
    (p : RetentionPublish) (l : List RetentionPublish)
    → any (λ q. id_beq q.id p.id) l ≡ false
    → IsSorted l
    → IsSorted (insert_row p l)
unfolding insert_row
IsSorted-insert_row p [] h s = (tt, tt)
IsSorted-insert_row p (q ∷ l) h s = ground (
  arith,
  h,
  s,
  IsSorted-insert_row p l,
  IsBefore-insert_row q.id p l,
  IsBefore-trans p.id q.id l,
  id_before-total p.id q.id,
)

pub All-insert_row {κ} :
    (P : RetentionPublish → Type κ) (p : RetentionPublish) (l : List RetentionPublish)
    → P p
    → All P l
    → All P (insert_row p l)
unfolding insert_row
All-insert_row P p [] h k = (h, tt)
All-insert_row P p (q ∷ l) h k = ground (arith, h, k, All-insert_row P p l h k.1)

pub length-insert_row :
    (p : RetentionPublish) (l : List RetentionPublish) → length (insert_row p l) ≡ suc (length l)
unfolding insert_row
length-insert_row p [] = refl
length-insert_row p (q ∷ l) = ground (arith, length-insert_row p l)

pub HasUniqueRows-retain :
    (f : MappingRow → Bool) (l : List MappingRow) → HasUniqueRows l → HasUniqueRows (retain f l)
HasUniqueRows-retain f [] h = h
HasUniqueRows-retain f (row ∷ l) h = ground (
  arith,
  HasUniqueRows-retain f l h.1,
  All-retain (λ r. is_row_of row.interface row.path r ≡ false) f l h.0,
)

pub find_row-none :
    (interface path : Str) (l : List MappingRow)
    → find_row interface path l ≡ none
    → All (λ r. is_row_of interface path r ≡ false) l
unfolding find_row
find_row-none interface path [] h = tt
find_row-none interface path (row ∷ l) h = ground (arith, h, find_row-none interface path l)

pub retain-rows :
    (interface path : Str) (l : List MappingRow)
    → All
        (λ r. is_row_of interface path r ≡ false)
        (retain (λ r. not (is_row_of interface path r)) l)
retain-rows interface path [] = tt
retain-rows interface path (row ∷ l) = ground (arith, retain-rows interface path l)

pub find_row-other_interface :
    (interface path name : Str) (l : List MappingRow)
    → str_beq interface name ≡ false
    → find_row interface path (retain (λ r. not (str_beq r.interface name)) l)
      ≡ find_row interface path l
unfolding find_row
find_row-other_interface interface path name [] h = refl
find_row-other_interface interface path name (row ∷ l) h = ground (
  arith,
  h,
  find_row-other_interface interface path name l h,
  str_beq_iff row.interface interface,
  str_beq_iff row.interface name,
  str_beq_iff interface name,
)

pub find_row-other :
    (interface path interface' path' : Str) (l : List MappingRow)
    → str_beq interface interface' && str_beq path path' ≡ false
    → find_row interface path (retain (λ r. not (is_row_of interface' path' r)) l)
      ≡ find_row interface path l
unfolding find_row
find_row-other interface path interface' path' [] h = refl
find_row-other interface path interface' path' (row ∷ l) h = ground (
  arith,
  h,
  find_row-other interface path interface' path' l h,
  str_beq_iff row.interface interface,
  str_beq_iff row.interface interface',
  str_beq_iff row.path path,
  str_beq_iff row.path path',
  str_beq_iff interface interface',
  str_beq_iff path path',
)

-- The publishes that a test keeps, where it keeps the rows of their mappings, still have one.
pub All-retain_of :
    (P Q : RetentionPublish → Type 0) (f : RetentionPublish → Bool) (l : List RetentionPublish)
    → ((p : RetentionPublish) → f p ≡ true → P p → Q p)
    → All P l
    → All Q (retain f l)
All-retain_of P Q f [] k h = h
All-retain_of P Q f (p ∷ l) k h = ground (arith, h, k p, All-retain_of P Q f l k h.1)
