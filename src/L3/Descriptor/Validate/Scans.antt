-- ===== src/L3/Descriptor/Validate/Scans.antt =====
-- How validate_descriptor of l3/l3_descriptor.cpp goes through whole records.
use omgp.Base.{
  ℕ, zero, suc, ◌+◌, ◌≤◌, ◌≡◌, refl, sym, ap, ◌∙◌, false, List, [], ◌∷◌, ◌++◌, some, arith, ltb,
  Bytes, length, length-append, append_assoc, subst, append-nil, take-append, drop-append,
}
use omgp.Base.Words.{u16}
use omgp.L3.Tlv.{tlv_table}
use omgp.L3.Descriptor.Validate.{Scan, go, scan_record, missing, validate_from}

pub record Tlv : Type 0 where
  pub type : ℕ
  pub value : Bytes

unfoldable pub encode_records : List Tlv → Bytes
encode_records [] = []
encode_records (r ∷ rs) = r.type ∷ length r.value ∷ r.value ++ encode_records rs

-- The validator goes through `rs`, which begin at `pos`, from scan `s` to scan `s'`.
pub data Scans : ℕ → List Tlv → Scan → Scan → Type 0 where
  done : {pos : ℕ} {s : Scan} → Scans pos [] s s
  go_on :
      {pos : ℕ} {r : Tlv} {rs : List Tlv} {s s' s'' : Scan}
      → scan_record r.type (u16 pos) r.value s ≡ go s'
      → Scans (pos + 2 + length r.value) rs s' s''
      → Scans pos (r ∷ rs) s s''

pub not_ltb : (m n : ℕ) → n ≤ m → ltb m n ≡ false
not_ltb m n h = ground arith

-- One round of the loop on a whole record.
validate_from_step :
    (n pos type : ℕ) (value rest : Bytes) (s s' : Scan)
    → scan_record type (u16 pos) value s ≡ go s'
    → validate_from (suc n) pos (type ∷ length value ∷ value ++ rest) s
      ≡ validate_from n (pos + 2 + length value) rest s'
unfolding validate_from
validate_from_step n pos type value rest s s' e =
    let size = length-append value rest in
    let fits = not_ltb (length (value ++ rest)) (length value) (omega arith) in
    rw (validate_from, fits)
      (rw (take-append value rest (length value) refl) (
        rw e (
          ap (λ b. validate_from n (pos + 2 + length value) b s')
            (drop-append value rest (length value) refl))))

-- The loop on whole records, with any number of rounds that is enough.
pub validate_from-Scans :
    (n pos : ℕ) (rs : List Tlv) (s s' : Scan)
    → Scans pos rs s s'
    → length (encode_records rs) ≤ n
    → validate_from n pos (encode_records rs) s
      ≡ some (missing tlv_table (pos + length (encode_records rs)) s')
unfolding encode_records validate_from
validate_from-Scans n pos [] s s' done h = ap (λ p. some (missing tlv_table p s)) (omega arith)
validate_from-Scans zero pos (r ∷ rs) s s' (go_on e t) h = absurd (omega arith)
validate_from-Scans (suc n) pos (r ∷ rs) s s' (go_on {s' = s1} e t) h =
    let size = length-append r.value (encode_records rs) in
    validate_from_step n pos r.type r.value (encode_records rs) s s1 e
    ∙ validate_from-Scans n (pos + 2 + length r.value) rs s1 s' t (omega arith)
    ∙ ap (λ p. some (missing tlv_table p s')) (omega arith)

pub Scans-append :
    (pos : ℕ) (rs : List Tlv) (r : Tlv) (s s' s'' : Scan)
    → Scans pos rs s s'
    → scan_record r.type (u16 (pos + length (encode_records rs))) r.value s' ≡ go s''
    → Scans pos (rs ++ r ∷ []) s s''
unfolding encode_records
Scans-append pos [] r s s' s'' done h =
    go_on (subst (λ p. scan_record r.type (u16 p) r.value s ≡ go s'') (omega arith) h) done
Scans-append pos (q ∷ rs) r s s' s'' (go_on e t) h =
    let size = length-append q.value (encode_records rs) in
    go_on e (
      Scans-append (pos + 2 + length q.value) rs r _ s' s'' t
        (subst (λ p. scan_record r.type (u16 p) r.value s' ≡ go s'') (omega arith) h))

pub encode_records-append :
    (rs : List Tlv) (r : Tlv)
    → encode_records (rs ++ r ∷ []) ≡ encode_records rs ++ r.type ∷ length r.value ∷ r.value
unfolding encode_records
encode_records-append [] r = ap (λ v. r.type ∷ length r.value ∷ v) (append-nil r.value)
encode_records-append (q ∷ rs) r =
    ap (λ v. q.type ∷ length q.value ∷ v)
      (ap (λ v. q.value ++ v) (encode_records-append rs r)
        ∙ sym (append_assoc q.value (encode_records rs) (r.type ∷ length r.value ∷ r.value)))
