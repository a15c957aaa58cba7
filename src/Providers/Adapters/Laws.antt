-- ===== src/Providers/Adapters/Laws.antt =====
-- What the recording adapters keep, and what the storage gives back.
use ascended_core.Base.{
  ℕ, ◌+◌, String, ◌≡◌, refl, sym, ap, subst, ◌∙◌, none, some, List, [], ◌∷◌, ◌++◌, length, take,
  length-append, arith, str_eq, if◌then◌else◌,
}
use ascended_core.Base.Dict.{get-set, get-delete}
use ascended_core.Core.Value.{number, end, field}
use ascended_core.Providers.Adapters.{
  healthy_report, AuditEvent, AuditRecord, record_event, audit_health, Objects, put_object,
  delete_object, read_object,
}

-- the records that a run of `record` calls makes, with the ids and times they get
pub record_events : List (AuditEvent × String × String) → List AuditRecord → List AuditRecord
record_events [] records = records
record_events ((event, id, now) ∷ calls) records =
    record_events calls (record_event event id now records).1

take-append : {A : Type 0} (xs ys : List A) → take (length xs) (xs ++ ys) ≡ xs
take-append [] ys = refl
take-append (x ∷ xs) ys = ap (λ zs. x ∷ zs) (take-append xs ys)

append_nil : {A : Type 0} (xs : List A) → xs ++ [] ≡ xs
append_nil [] = refl
append_nil (x ∷ xs) = ap (λ ys. x ∷ ys) (append_nil xs)

append_one : {A : Type 0} (xs : List A) (x : A) (ys : List A) → (xs ++ x ∷ []) ++ ys ≡ xs ++ x ∷ ys
append_one [] x ys = refl
append_one (z ∷ xs) x ys = ap (λ ws. z ∷ ws) (append_one xs x ys)

-- what the calls put behind the records
recorded :
    (calls : List (AuditEvent × String × String)) (records : List AuditRecord)
    → (more : List AuditRecord) × (record_events calls records ≡ records ++ more)
      × (length more ≡ length calls)
unfolding record_events record_event
recorded [] records = ([], sym (append_nil records), refl)
recorded ((event, id, now) ∷ calls) records =
    let made : AuditRecord = record { event = event; id = id; recorded_at = now } in
    let (more, e, n) = recorded calls (records ++ made ∷ []) in
    (
      made ∷ more,
      subst (λ l. record_events calls (records ++ made ∷ []) ≡ l) (append_one records made more) e,
      omega (arith, n),
    )

-- The audit log is append-only: whatever is recorded later, the records that were there stay, as
-- they were and in their order, at its front, and the health check counts one more for each call.
pub record_events_lem :
    (calls : List (AuditEvent × String × String)) (records : List AuditRecord) (now : String)
    → (take (length records) (record_events calls records) ≡ records)
      × (audit_health now (record_events calls records)
          ≡ healthy_report now
              (some (field "records" (number (length records + length calls)) end)))
unfolding audit_health
record_events_lem calls records now =
    let (more, e, n) = recorded calls records in
    (
      ap (take (length records)) e ∙ take-append records more,
      ap (λ k. healthy_report now (some (field "records" (number k) end)))
          (ap length e ∙ length-append records more ∙ omega (arith, n)),
    )

-- What is put under a key is read back, byte for byte, until the key is put again or deleted, and
-- the other keys are left alone.
pub read-put_object :
    (key j : String) (bytes : List ℕ) (content_type : String) (objects : Objects)
    → (read_object j (put_object key bytes content_type objects) ≡ (
        if str_eq key j
        then some (record { bytes = bytes; content_type = content_type })
        else read_object j objects))
      × (read_object j (delete_object key objects)
          ≡ (if str_eq key j then none else read_object j objects))
unfolding read_object put_object delete_object
read-put_object key j bytes content_type objects =
    (get-set key j _ objects, get-delete key j objects)
