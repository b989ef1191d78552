-- ===== src/Log/Record/Reads.antt =====
-- Reading a number or a string out of a buffer, and the header of a record.
use ddbms.Base.{
  ℕ, ◌^◌, ◌<◌, ◌≡◌, refl, ap, ◌∙◌, subst, Bool, true, false, some, List, [], ◌++◌, length, take,
  none, ◌==◌, if◌then◌else◌, arith, length-append, take-append,
}
use ddbms.Base.Bytes.{bytes_le, length-bytes_le, value_le-bytes_le, drop-length}
use ddbms.Log.Record.{
  LogRecordType, insert, delete, begin, commit, abort, type_code, type_of_code, LogRecord,
  operation_record, data_record, set_lsn, header_bytes, has_data, read_number, read_bytes,
  read_header,
}
use mathlib.Core.List.{append_assoc}

module _ (k : ℕ) (pre rest : List ℕ) (x : ℕ) (small : x < 256 ^ k) where
  read_number-bytes_le : read_number k (pre ++ (bytes_le k x ++ rest)) (length pre) ≡ some x
  unfolding read_number
  read_number-bytes_le = ground (
    arith,
    drop-length pre (bytes_le k x ++ rest),
    subst (λ n. take n (bytes_le k x ++ rest) ≡ bytes_le k x) (length-bytes_le k x)
        (take-append (bytes_le k x) rest),
    value_le-bytes_le k x small,
    length-append pre (bytes_le k x ++ rest),
    length-append (bytes_le k x) rest,
    length-bytes_le k x,
  )

  pub read_number-at :
      (c : List ℕ) (off : ℕ)
      → c ≡ pre ++ (bytes_le k x ++ rest)
      → off ≡ length pre
      → read_number k c off ≡ some x
  read_number-at c off p q = rw (p, q) read_number-bytes_le

pub read_bytes-at :
    (pre s rest c : List ℕ) (off : ℕ)
    → c ≡ pre ++ (s ++ rest)
    → off ≡ length pre
    → read_bytes c off (length s) ≡ some s
unfolding read_bytes
read_bytes-at pre s rest c off p q =
    rw (p, q)
      (ground (
        arith,
        drop-length pre (s ++ rest),
        take-append s rest,
        length-append pre (s ++ rest),
        length-append s rest,
      ))

pub if_true {ℓ} : {A : Type ℓ} {b : Bool} {x : A} (y : A) → b ≡ true → (if b then x else y) ≡ x
if_true y p = rw p refl

pub if_false {ℓ} : {A : Type ℓ} {b : Bool} (x : A) {y : A} → b ≡ false → (if b then x else y) ≡ y
if_false x p = rw p refl

-- The ranges of a record's fields, and the size that its constructor computes.
pub record IsRecord (r : LogRecord) : Type 0 where
  pub lsn : r.lsn < 2 ^ 32
  pub txn_id : r.txn_id < 2 ^ 64
  pub prev_lsn : r.prev_lsn < 2 ^ 32
  pub key : length r.key < 2 ^ 32
  pub value : length r.value < 2 ^ 32

-- A record as its constructor makes it, with its number set.
abbrev pub IsMade : LogRecord → Type 0
IsMade r =
    (if has_data r.log_type
      then set_lsn r.lsn (data_record r.txn_id r.prev_lsn r.log_type r.key r.value)
      else set_lsn r.lsn (operation_record r.txn_id r.prev_lsn r.log_type))
    ≡ r

-- The types that `DeserializeFrom` has a case for.
abbrev pub is_read : LogRecordType → Bool
is_read insert = true
is_read delete = true
is_read begin = true
is_read commit = true
is_read abort = true
is_read _ = false

type_of_code-type_code : (t : LogRecordType) → type_of_code (type_code t) ≡ t
type_of_code-type_code insert = refl
type_of_code-type_code _ = refl

type_code_small : (t : LogRecordType) → type_code t < 2 ^ 32
type_code_small insert = omega arith
type_code_small _ = omega arith

module _ (r : LogRecord) (ok : IsRecord r) (body : List ℕ) where
  abbrev sz : List ℕ
  sz = bytes_le 4 r.size

  abbrev ln : List ℕ
  ln = bytes_le 4 r.lsn

  abbrev tx : List ℕ
  tx = bytes_le 8 r.txn_id

  abbrev pv : List ℕ
  pv = bytes_le 4 r.prev_lsn

  abbrev ty : List ℕ
  ty = bytes_le 4 (type_code r.log_type)

  lengths : (length sz ≡ 4) × (length ln ≡ 4) × (length tx ≡ 8) × (length pv ≡ 4) × (length ty ≡ 4)
  lengths = (
    length-bytes_le 4 _,
    length-bytes_le 4 _,
    length-bytes_le 8 _,
    length-bytes_le 4 _,
    length-bytes_le 4 _,
  )

  pub length-header : length (header_bytes r) ≡ 24
  unfolding header_bytes
  length-header = omega (
    arith,
    lengths,
    length-append sz (ln ++ (tx ++ (pv ++ ty))),
    length-append ln (tx ++ (pv ++ ty)),
    length-append tx (pv ++ ty),
    length-append pv ty,
  )

  abbrev pub content : List ℕ
  unfolding header_bytes
  content = header_bytes r ++ body

  content_lem : content ≡ sz ++ (ln ++ (tx ++ (pv ++ (ty ++ body))))
  unfolding header_bytes
  content_lem = simp append_assoc

  read_lsn : read_number 4 content 4 ≡ some r.lsn
  unfolding header_bytes
  read_lsn =
      read_number-at 4 sz (tx ++ (pv ++ (ty ++ body))) r.lsn (omega (arith, ok.lsn)) content 4
        (simp append_assoc) (omega (arith, lengths))

  read_txn_id : read_number 8 content 8 ≡ some r.txn_id
  unfolding header_bytes
  read_txn_id =
      read_number-at 8 (sz ++ ln) (pv ++ (ty ++ body)) r.txn_id (omega (arith, ok.txn_id)) content 8
        (simp append_assoc) (omega (arith, lengths, length-append sz ln))

  read_prev_lsn : read_number 4 content 16 ≡ some r.prev_lsn
  unfolding header_bytes
  read_prev_lsn =
      read_number-at 4 (sz ++ (ln ++ tx)) (ty ++ body) r.prev_lsn (omega (arith, ok.prev_lsn))
        content 16 (simp append_assoc)
        (omega (arith, lengths, length-append sz (ln ++ tx), length-append ln tx))

  read_type : read_number 4 content 20 ≡ some (type_code r.log_type)
  unfolding header_bytes
  read_type =
      read_number-at 4 (sz ++ (ln ++ (tx ++ pv))) body (type_code r.log_type)
        (omega (arith, type_code_small r.log_type)) content 20 (simp append_assoc)
        (omega (
          arith,
          lengths,
          length-append sz (ln ++ (tx ++ pv)),
          length-append ln (tx ++ pv),
          length-append tx pv,
        ))

  abbrev pub header : LogRecordType → LogRecord
  header t = record {
    size = 0;
    lsn = r.lsn;
    txn_id = r.txn_id;
    prev_lsn = r.prev_lsn;
    log_type = t;
    key = [];
    value = [];
  }

  header_read :
      read_header content ≡ (if type_code r.log_type == 0 then none else some (header r.log_type))
  unfolding header_bytes
  header_read =
      rw (read_lsn, read_txn_id, read_prev_lsn, read_type, type_of_code-type_code r.log_type) refl

  pub header_read_at :
      (t : LogRecordType)
      → r.log_type ≡ t
      → (type_code t == 0) ≡ false
      → read_header content ≡ some (header t)
  unfolding header_bytes
  header_read_at t p n =
      header_read
      ∙ ap (λ u. if type_code u == 0 then none else some (header u)) p
      ∙ rw (n, if◌then◌else◌) refl
