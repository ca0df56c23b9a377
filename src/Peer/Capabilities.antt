-- ===== src/Peer/Capabilities.antt =====
-- pkg/core/peer/cer_cea.go: the exchange of capabilities.
use godiam.Prelude.{ℕ, Bool, Option, none, some, List, ◌==◌, if◌then◌else◌}
use godiam.Message.{Message}
use godiam.Message.Fields.{get_origin_host, get_origin_realm, get_result_code}
use godiam.Peer.{
  Error, missing_result_code, missing_origin_host, missing_origin_realm, cea_result, cer_rejected,
  nil_dereference, Peer,
}
use godiam.Peer.Send.{result_success, result_unable_to_comply}

abbrev pub identified : List ℕ → List ℕ → Peer → Peer
identified host realm p = record p { diameter_id = host; realm = realm }

-- What the accept policy says of an identity.
abbrev judged : Option (List ℕ → List ℕ → Bool × ℕ) → List ℕ → List ℕ → Option Error
judged none host realm = none
judged (some policy) host realm =
    if (policy host realm).0 then none else some (cer_rejected (policy host realm).1)

unfoldable pub process_cer : Option Message → Peer → Peer × Option Error
process_cer none p = (p, some nil_dereference)
process_cer (some m) p = elim (get_origin_host m) [
  | none ↦ (p, some missing_origin_host)
  | some host ↦ elim (get_origin_realm m) [
    | none ↦ (p, some missing_origin_realm)
    | some realm ↦ (identified host realm p, judged p.accept_policy host realm)
  ]
]

unfoldable pub process_cea : Option Message → Peer → Peer × Option Error
process_cea none p = (p, some nil_dereference)
process_cea (some m) p = elim (get_result_code m) [
  | none ↦ (p, some missing_result_code)
  | some code ↦
      if code == result_success
      then elim (get_origin_host m) [
        | none ↦ (p, some missing_origin_host)
        | some host ↦ elim (get_origin_realm m) [
          | none ↦ (p, some missing_origin_realm)
          | some realm ↦ (identified host realm p, none)
        ]
      ]
      else (p, some (cea_result code))
]

-- The result code with which a CER that failed is rejected.
unfoldable pub reject_code : Error → ℕ
reject_code (cer_rejected code) = code
reject_code _ = result_unable_to_comply
