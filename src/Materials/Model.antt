-- ===== src/Materials/Model.antt =====
-- The rows of materials.db (api/materials/store.py, schemas.py).
--
-- The columns that an upsert compares stand together as `Contents`; the quantity stands as `str`
-- writes it. Times are those of the texts, whose order is the same.
use server_api.Prelude.{
  ℕ, ◌≡◌, refl, ap, Bool, true, false, ◌&&◌, Option, none, some, List, String, arith, str_eq,
  eq_iff, ℤ, int_eq, int_eq-same, int_eq_refl,
}

pub record MaterialRow : Type 0 where
  pub doc_number : String
  pub seq : Option ℤ
  pub material_code : Option String
  pub material_name : Option String
  pub request_qty_g : Option String
  pub reason : Option String
  pub request_dept : Option String
  pub drafter : Option String
  pub processed_at : Option String
  pub keyword : Option String

pub record Contents : Type 0 where
  pub material_code : Option String
  pub material_name : Option String
  pub request_qty_g : Option String
  pub reason : Option String
  pub request_dept : Option String
  pub drafter : Option String
  pub processed_at : Option String
  pub keyword : Option String
  pub doc_date : Option String

-- The primary key.
pub record Key : Type 0 where
  pub doc_number : String
  pub seq : ℤ

pub record Incoming : Type 0 where
  pub key : Key
  pub contents : Contents

pub record MaterialPublic : Type 0 where
  pub key : Key
  pub contents : Contents
  pub received_at : ℕ
  pub updated_at : ℕ

pub record Tombstone : Type 0 where
  pub table_name : String
  pub doc_number : String
  pub deleted_at : ℕ

pub record MaterialsDb : Type 0 where
  pub tables : String → List MaterialPublic
  pub tombstones : List Tombstone

pub record BackupResult : Type 0 where
  pub upserted : ℕ
  pub inserted : ℕ
  pub updated : ℕ
  pub skipped : ℕ

unfoldable pub same_key : Key → Key → Bool
same_key k l = str_eq k.doc_number l.doc_number && int_eq k.seq l.seq

-- `IS` of two columns.
abbrev pub text_is : Option String → Option String → Bool
text_is none none = true
text_is (some s) (some t) = str_eq s t
text_is _ _ = false

unfoldable pub same_contents : Contents → Contents → Bool
same_contents c d =
    text_is c.material_code d.material_code
    && text_is c.material_name d.material_name
    && text_is c.request_qty_g d.request_qty_g
    && text_is c.reason d.reason
    && text_is c.request_dept d.request_dept
    && text_is c.drafter d.drafter
    && text_is c.processed_at d.processed_at
    && text_is c.keyword d.keyword
    && text_is c.doc_date d.doc_date

pub same_key-same : (k l : Key) → same_key k l ≡ true → k ≡ l
unfolding same_key
same_key-same k l h =
    let doc = (eq_iff k.doc_number l.doc_number).0 (ground arith) in
    let seq = int_eq-same k.seq l.seq (ground arith) in
    λ i. record { doc_number = doc i; seq = seq i }

pub same_key_refl : (k : Key) → same_key k k ≡ true
unfolding same_key
same_key_refl k = ground (arith, eq_iff k.doc_number k.doc_number, int_eq_refl k.seq)

pub text_is_refl : (o : Option String) → text_is o o ≡ true
text_is_refl none = refl
text_is_refl (some s) = (eq_iff s s).1 refl

pub same_contents_refl : (c : Contents) → same_contents c c ≡ true
unfolding same_contents
same_contents_refl c = ground (
  arith,
  text_is_refl c.material_code,
  text_is_refl c.material_name,
  text_is_refl c.request_qty_g,
  text_is_refl c.reason,
  text_is_refl c.request_dept,
  text_is_refl c.drafter,
  text_is_refl c.processed_at,
  text_is_refl c.keyword,
  text_is_refl c.doc_date,
)

-- Two columns of which `IS` holds are equal.
text_is-same : (o p : Option String) → text_is o p ≡ true → o ≡ p
text_is-same none none h = refl
text_is-same none (some t) h = absurd (ground arith)
text_is-same (some s) none h = absurd (ground arith)
text_is-same (some s) (some t) h = ap (λ z. some z) ((eq_iff s t).0 h)

nine :
    (a b c d e f g h i : Bool)
    → (a && b && c && d && e && f && g && h && i) ≡ true
    → (a ≡ true)
      × (b ≡ true)
      × (c ≡ true)
      × (d ≡ true)
      × (e ≡ true)
      × (f ≡ true)
      × (g ≡ true)
      × (h ≡ true)
      × (i ≡ true)
nine true true true true true true true true true p =
    (refl, refl, refl, refl, refl, refl, refl, refl, refl)
nine false b c d e f g h i p = absurd (ground arith)
nine true false c d e f g h i p = absurd (ground arith)
nine true true false d e f g h i p = absurd (ground arith)
nine true true true false e f g h i p = absurd (ground arith)
nine true true true true false f g h i p = absurd (ground arith)
nine true true true true true false g h i p = absurd (ground arith)
nine true true true true true true false h i p = absurd (ground arith)
nine true true true true true true true false i p = absurd (ground arith)
nine true true true true true true true true false p = absurd (ground arith)

pub same_contents-same : (c d : Contents) → same_contents c d ≡ true → c ≡ d
unfolding same_contents
same_contents-same c d p =
    let q =
      nine (text_is c.material_code d.material_code) (text_is c.material_name d.material_name)
        (text_is c.request_qty_g d.request_qty_g) (text_is c.reason d.reason)
        (text_is c.request_dept d.request_dept) (text_is c.drafter d.drafter)
        (text_is c.processed_at d.processed_at) (text_is c.keyword d.keyword)
        (text_is c.doc_date d.doc_date) p in
    λ i. record {
      material_code = text_is-same c.material_code d.material_code q.0 i;
      material_name = text_is-same c.material_name d.material_name q.1 i;
      request_qty_g = text_is-same c.request_qty_g d.request_qty_g q.2 i;
      reason = text_is-same c.reason d.reason q.3 i;
      request_dept = text_is-same c.request_dept d.request_dept q.4 i;
      drafter = text_is-same c.drafter d.drafter q.5 i;
      processed_at = text_is-same c.processed_at d.processed_at q.6 i;
      keyword = text_is-same c.keyword d.keyword q.7 i;
      doc_date = text_is-same c.doc_date d.doc_date q.8 i;
    }
