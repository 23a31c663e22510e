-- ===== src/L3/Descriptor/Validate/Accepts.antt =====
-- What validate_descriptor of l3/l3_descriptor.cpp accepts, and that it returns.
use omgp.Base.{
  ℕ, zero, suc, ◌+◌, ◌≤◌, ◌≡◌, ◌≢◌, ◌⊎◌, inl, inr, refl, sym, ap, ◌∙◌, true, false, List, [], ◌∷◌,
  ◌++◌, none, some, subst, arith, ltb, Bytes, length, length-drop, length-take, take, drop,
  take-append-drop, All, Bool-cases, Option-cases,
}
use omgp.Base.Words.{u16}
use omgp.Protocol.{max_descriptor_bytes}
use omgp.L3.Types.{L3Status, ok}
use omgp.L3.Tlv.{TlvInfo, tlv_table, tlv_info}
use omgp.L3.Header.{is_ok}
use omgp.L3.Descriptor.{check_record}
use omgp.L3.Descriptor.Validate.{
  bit, set_bit, DescriptorReport, Scan, new_scan, Step, stop, go, scan_key, scan_known, scan_record,
  missing, validate_from, validate_descriptor,
}
use omgp.L3.Descriptor.Validate.Scans.{Tlv, encode_records, Scans, done, go_on}

Step-cases : (x : Step) → ((r : DescriptorReport) × (x ≡ stop r)) ⊎ ((s : Scan) × (x ≡ go s))
Step-cases (stop r) = inl (r, refl)
Step-cases (go s) = inr (s, refl)

validate_from-returns :
    (n pos : ℕ) (blob : Bytes) (s : Scan)
    → length blob ≤ n
    → (r : DescriptorReport) × (validate_from n pos blob s ≡ some r)
unfolding validate_from
validate_from-returns n pos [] s h = (_, refl)
validate_from-returns zero pos (a ∷ blob) s h = absurd (omega arith)
validate_from-returns (suc n) pos (a ∷ []) s h = (_, refl)
validate_from-returns (suc n) pos (a ∷ len ∷ blob) s h =
    let next_pos = pos + 2 + len in
    elim (Bool-cases (ltb (length blob) len)) [
      | inl short ↦ rw (validate_from, short) (_, refl)
      | inr whole ↦ elim (Step-cases (scan_record a (u16 pos) (take len blob) s)) [
        | inl (r, e) ↦ rw (validate_from, whole) (rw e (r, refl))
        | inr (s', e) ↦
            rw (validate_from, whole)
              (rw e (
                validate_from-returns n next_pos (drop len blob) s'
                  (omega (arith, length-drop len blob))))
      ]
    ]

-- The validator ends on any bytes, and returns a report.
pub validate_descriptor-returns :
    (blob : Bytes) → (r : DescriptorReport) × (validate_descriptor blob ≡ some r)
unfolding validate_descriptor
validate_descriptor-returns blob = elim (Bool-cases (ltb max_descriptor_bytes (length blob))) [
  | inl long ↦ rw (validate_descriptor, long) (_, refl)
  | inr fits ↦
      rw (validate_descriptor, fits)
        (validate_from-returns (length blob) 0 blob new_scan (omega arith))
]

-- A record that is well formed, or of a type that the validator skips.
abbrev pub IsSound : Tlv → Type 0
IsSound t = (tlv_info t.type ≡ none) ⊎ (check_record t.type t.value ≡ ok)

is_ok→ok : (st : L3Status) → is_ok st ≡ true → st ≡ ok
is_ok→ok st h = ground arith

scan_known-go :
    (info : TlvInfo) (type off : ℕ) (value : Bytes) (s s' : Scan)
    → scan_known info type off value s ≡ go s'
    → (check_record type value ≡ ok)
      × (s'.seen ≡ set_bit s.seen type)
      × (s'.report.status ≡ s.report.status)
unfolding scan_known scan_key
scan_known-go info type off value s s' h = ground arith

scan_known-stop :
    (info : TlvInfo) (type off : ℕ) (value : Bytes) (s : Scan) (r : DescriptorReport)
    → scan_known info type off value s ≡ stop r
    → r.status ≢ ok
unfolding scan_known scan_key
scan_known-stop info type off value s r h = ground arith

record Goes (type : ℕ) (value : Bytes) (s s' : Scan) : Type 0 where
  sound : (tlv_info type ≡ none) ⊎ (check_record type value ≡ ok)
  seen_cases : (s'.seen ≡ s.seen) ⊎ (s'.seen ≡ set_bit s.seen type)
  status_eq : s'.report.status ≡ s.report.status

scan_record-Goes :
    (type off : ℕ) (value : Bytes) (s s' : Scan)
    → scan_record type off value s ≡ go s'
    → Goes type value s s'
unfolding scan_record
scan_record-Goes type off value s s' h = elim (Option-cases (tlv_info type)) [
  | inl e ↦ ground arith
  | inr (info, e) ↦ ground (arith, scan_known-go info type off value s s')
]

scan_record-stop :
    (type off : ℕ) (value : Bytes) (s : Scan) (r : DescriptorReport)
    → scan_record type off value s ≡ stop r
    → r.status ≢ ok
unfolding scan_record
scan_record-stop type off value s r h = elim (Option-cases (tlv_info type)) [
  | inl e ↦ ground arith
  | inr (info, e) ↦ ground (arith, scan_known-stop info type off value s r)
]

-- A report of success comes from a scan of whole records.
abbrev Scanned : ℕ → Bytes → Scan → DescriptorReport → Type 0
Scanned pos blob s r =
    (rs : List Tlv) × (s' : Scan) × (len : ℕ) × (blob ≡ encode_records rs)
    × Scans pos rs s s'
    × (r ≡ missing tlv_table len s')

regrouped :
    (a len : ℕ) (blob rest : Bytes)
    → length (take len blob) ≡ len
    → drop len blob ≡ rest
    → a ∷ len ∷ blob ≡ a ∷ length (take len blob) ∷ take len blob ++ rest
regrouped a len blob rest same e =
    ap (λ l. a ∷ l ∷ blob) (sym same)
    ∙ ap (λ b. a ∷ length (take len blob) ∷ b)
        (sym (take-append-drop len blob) ∙ ap (λ d. take len blob ++ d) e)

validate_from-Scanned :
    (n pos : ℕ) (blob : Bytes) (s : Scan) (r : DescriptorReport)
    → validate_from n pos blob s ≡ some r
    → r.status ≡ ok
    → Scanned pos blob s r
unfolding validate_from encode_records
validate_from-Scanned n pos [] s r h k = ([], s, pos, refl, done, ground arith)
validate_from-Scanned zero pos (a ∷ blob) s r h k = ground arith
validate_from-Scanned (suc n) pos (a ∷ []) s r h k = ground arith
validate_from-Scanned (suc n) pos (a ∷ len ∷ blob) s r h k =
    elim (Bool-cases (ltb (length blob) len)) [
      | inl short ↦ ground arith
      | inr whole ↦ elim (Step-cases (scan_record a (u16 pos) (take len blob) s)) [
        | inl (r', e) ↦ ground (arith, scan_record-stop a (u16 pos) (take len blob) s r' e)
        | inr (s', e) ↦
            let (rs, s'', l, split, scans, m) =
              validate_from-Scanned n (pos + 2 + len) (drop len blob) s' r (ground arith) k in
            let same : length (take len blob) ≡ len = ground (arith, length-take len blob) in
            (
              record { type = a; value = take len blob } ∷ rs,
              s'',
              l,
              regrouped a len blob (encode_records rs) same split,
              go_on e (subst (λ x. Scans (pos + 2 + x) rs s' s'') (sym same) scans),
              m,
            )
      ]
    ]

-- The types of records.
pub types : List Tlv → List ℕ
types [] = []
types (t ∷ rs) = t.type ∷ types rs

Scans-IsSound : {pos : ℕ} {rs : List Tlv} {s s' : Scan} → Scans pos rs s s' → All IsSound rs
Scans-IsSound done = tt
Scans-IsSound (go_on {pos} {r} {s = s} {s' = s1} e t) =
    ((scan_record-Goes r.type (u16 pos) r.value s s1 e).sound, Scans-IsSound t)

-- What the validator has seen behind the records, it has seen before or in one of them.
Scans-seen :
    {pos : ℕ} {rs : List Tlv} {s s' : Scan} (x : ℕ)
    → Scans pos rs s s'
    → bit s'.seen x ≡ true
    → (bit s.seen x ≡ true) ⊎ (bit (types rs) x ≡ true)
unfolding types bit
Scans-seen x done h = inl h
Scans-seen x (go_on {pos} {r} {s = s} {s' = s1} e t) h =
    ground (arith, Scans-seen x t h, (scan_record-Goes r.type (u16 pos) r.value s s1 e).seen_cases)

-- A record of a type that must be there is among `rs`.
abbrev pub HasRequired : List Tlv → TlvInfo → Type 0
HasRequired rs info = (info.required ≡ false) ⊎ (bit (types rs) info.type ≡ true)

missing-ok :
    (ts : List TlvInfo) (len : ℕ) (s : Scan)
    → (missing ts len s).status ≡ ok
    → All (λ info. (info.required ≡ false) ⊎ (bit s.seen info.type ≡ true)) ts
unfolding missing
missing-ok [] len s h = tt
missing-ok (t ∷ ts) len s h = (ground arith, missing-ok ts len s (ground arith))

required_seen :
    (ts : List TlvInfo) (rs : List Tlv) (seen : List ℕ)
    → ((x : ℕ) → bit seen x ≡ true → bit (types rs) x ≡ true)
    → All (λ info. (info.required ≡ false) ⊎ (bit seen info.type ≡ true)) ts
    → All (HasRequired rs) ts
required_seen [] rs seen h a = tt
required_seen (t ∷ ts) rs seen h (inl e, a) = (inl e, required_seen ts rs seen h a)
required_seen (t ∷ ts) rs seen h (inr e, a) = (inr (h t.type e), required_seen ts rs seen h a)

not_empty_seen :
    (x : ℕ) (rs : List Tlv)
    → (bit [] x ≡ true) ⊎ (bit (types rs) x ≡ true)
    → bit (types rs) x ≡ true
unfolding bit
not_empty_seen x rs h = ground arith

-- A blob that the validator accepts is at most 2048 bytes long and is nothing but whole records, each
-- of them well formed for its type or of an unknown type; and each required type is among them.
pub validate_descriptor-accepts :
    (blob : Bytes) (r : DescriptorReport)
    → validate_descriptor blob ≡ some r
    → r.status ≡ ok
    → (length blob ≤ max_descriptor_bytes)
      × ((rs : List Tlv) × (blob ≡ encode_records rs)
          × All IsSound rs
          × All (HasRequired rs) tlv_table)
unfolding validate_descriptor
validate_descriptor-accepts blob r h k =
    elim (Bool-cases (ltb max_descriptor_bytes (length blob))) [
      | inl long ↦ ground arith
      | inr fits ↦
          let (rs, s', len, split, scans, m) =
            validate_from-Scanned (length blob) 0 blob new_scan r (ground arith) k in
          let present = missing-ok tlv_table len s' (ap (λ x. x.status) (sym m) ∙ k) in
          (
            ground arith,
            (
              rs,
              split,
              Scans-IsSound scans,
              required_seen tlv_table rs s'.seen (λ x e. not_empty_seen x rs (Scans-seen x scans e))
                  present,
            ),
          )
    ]
