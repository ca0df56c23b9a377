-- ===== src/Message/Answers.antt =====
-- Answers: their flags and their Result-Code.
use godiam.Prelude.{
  ℕ, ◌+◌, ◌*◌, ◌/◌, ◌%◌, ◌^◌, ◌<◌, ◌≡◌, refl, ap, ◌∙◌, Bool, true, false, not, ◌||◌, List, [], ◌∷◌,
  ◌++◌, Option, none, some, arith, bit_or, ltb, leb, Bool-cases, inl, inr,
}
use godiam.Prelude.Bits.{same_below, agree_below}
use godiam.Message.{
  Result, ok, Message, Avp, Avps, avp, nil, has_flag, cmd_request, cmd_proxiable, cmd_error,
  cmd_retransmit, be32, flag_mandatory,
}
use godiam.Message.Fields.{
  is_request, is_proxiable, is_error, new_answer_with_result, set_result_code, get_result_code,
  update_first, find_in, find_avp, matches_avp, result_code, clear_flag, get_unsigned32, uint32,
}

request_cleared : (f : ℕ) → f < 256 → has_flag (clear_flag f cmd_request) cmd_request ≡ false
unfolding has_flag same_below
request_cleared f h =
    agree_below 256 (λ i. has_flag (clear_flag i cmd_request) cmd_request) (λ _. false) f refl h

others_kept :
    (f : ℕ)
    → f < 256
    → (has_flag (clear_flag f cmd_request) cmd_proxiable ≡ has_flag f cmd_proxiable)
      × (has_flag (clear_flag f cmd_request) cmd_error ≡ has_flag f cmd_error)
      × (has_flag (clear_flag f cmd_request) cmd_retransmit ≡ has_flag f cmd_retransmit)
unfolding has_flag same_below
others_kept f h = (
  agree_below 256 (λ i. has_flag (clear_flag i cmd_request) cmd_proxiable)
      (λ i. has_flag i cmd_proxiable) f refl h,
  agree_below 256 (λ i. has_flag (clear_flag i cmd_request) cmd_error) (λ i. has_flag i cmd_error) f
      refl h,
  agree_below 256 (λ i. has_flag (clear_flag i cmd_request) cmd_retransmit)
      (λ i. has_flag i cmd_retransmit) f refl h,
)

error_set :
    (f : ℕ)
    → f < 256
    → (has_flag (bit_or f cmd_error) cmd_error ≡ true)
      × (has_flag (bit_or f cmd_error) cmd_request ≡ has_flag f cmd_request)
      × (has_flag (bit_or f cmd_error) cmd_proxiable ≡ has_flag f cmd_proxiable)
unfolding has_flag same_below
error_set f h = (
  agree_below 256 (λ i. has_flag (bit_or i cmd_error) cmd_error) (λ _. true) f refl h,
  agree_below 256 (λ i. has_flag (bit_or i cmd_error) cmd_request) (λ i. has_flag i cmd_request) f
      refl h,
  agree_below 256 (λ i. has_flag (bit_or i cmd_error) cmd_proxiable) (λ i. has_flag i cmd_proxiable)
      f refl h,
)

clear_flag-lt : (f mask : ℕ) → f < 256 → clear_flag f mask < 256
clear_flag-lt f mask h = omega arith

read32-be32 :
    (x : ℕ)
    → x < 2 ^ 32
    → x / 2 ^ 24 % 256 * 2 ^ 24 + x / 2 ^ 16 % 256 * 2 ^ 16 + x / 2 ^ 8 % 256 * 2 ^ 8 + x % 256 ≡ x
read32-be32 x h = omega arith

abbrev number_of : Option Avp → Option (Result ℕ)
number_of none = none
number_of (some a) = some (get_unsigned32 a)

-- Either no AVP has the code, or the first that has it holds the new data.
abbrev Updated : ℕ → List ℕ → List Avp → Option (List Avp) → Type 0
Updated code payload l none = find_in code 0 l ≡ none
Updated code payload l (some l') = number_of (find_in code 0 l') ≡ some (uint32 payload)

skipped :
    (code : ℕ) (payload : List ℕ) (a : Avp) (l : List Avp) (r : Option (List Avp))
    → matches_avp code 0 a ≡ false
    → Updated code payload l r
    → Updated code payload (a ∷ l) (elim r [ none ↦ none | some l' ↦ some (a ∷ l') ])
unfolding find_in
skipped code payload a l none h u = rw h u
skipped code payload a l (some l') h u = rw h u

rewritten :
    (code c f v : ℕ) (p payload : List ℕ) (children : Avps) (l : List Avp)
    → matches_avp code 0 (avp c f v p children) ≡ true
    → number_of (find_in code 0 (avp c f v payload children ∷ l)) ≡ some (uint32 payload)
unfolding find_in matches_avp get_unsigned32
rewritten code c f v p payload children l y = rw y

update_first-Updated :
    (code : ℕ) (payload : List ℕ) (l : List Avp)
    → Updated code payload l (update_first code payload l)
unfolding update_first find_in
update_first-Updated code payload [] = refl
update_first-Updated code payload (avp c f v p children ∷ l) =
    elim (Bool-cases (matches_avp code 0 (avp c f v p children))) [
      | inl y ↦ rw y (rewritten code c f v p payload children l y)
      | inr n ↦ rw n (
          skipped code payload (avp c f v p children) l (update_first code payload l) n
            (update_first-Updated code payload l))
    ]

not_found-append :
    (code c f v : ℕ) (payload : List ℕ) (l : List Avp)
    → c ≡ code
    → find_in code 0 l ≡ none
    → find_in code 0 (l ++ avp c f v payload nil ∷ []) ≡ some (avp c f v payload nil)
unfolding find_in matches_avp
not_found-append code c f v payload [] e h = ground arith
not_found-append code c f v payload (a ∷ l) e h =
    ground (arith, not_found-append code c f v payload l e)

found_number :
    (o : Option Avp) (x : ℕ)
    → number_of o ≡ some (ok x)
    → (a : Avp) × (o ≡ some a) × (get_unsigned32 a ≡ ok x)
found_number none x h = cc
found_number (some a) x h = (a, refl, cc)

result_of_number :
    (m : Message) (x : ℕ)
    → number_of (find_in result_code 0 m.avps) ≡ some (ok x)
    → get_result_code m ≡ some x
unfolding get_result_code find_avp
result_of_number m x h =
    let (a, e, n) = found_number (find_in result_code 0 m.avps) x h in rw (e, get_result_code, n)

uint32-be32 : (x : ℕ) → x < 2 ^ 32 → uint32 (be32 x) ≡ ok x
unfolding uint32
uint32-be32 x h = ap ok (read32-be32 x h)

set_and_read :
    (m : Message) (code : ℕ) (r : Option (List Avp))
    → code < 2 ^ 32
    → update_first result_code (be32 code) m.avps ≡ r
    → Updated result_code (be32 code) m.avps r
    → get_result_code (set_result_code m code) ≡ some code
unfolding set_result_code get_unsigned32
set_and_read m code none h e u =
    rw (e, set_result_code)
      (result_of_number (record m { avps = m.avps ++ new ∷ [] }) code
        (rw (not_found-append result_code result_code flag_mandatory 0 (be32 code) m.avps refl u)
          (ap some (uint32-be32 code h))))
  where
    new : Avp
    new = avp result_code flag_mandatory 0 (be32 code) nil
set_and_read m code (some l) h e u =
    rw (e, set_result_code)
      (result_of_number (record m { avps = l }) code (u ∙ ap some (uint32-be32 code h)))

-- `GetResultCode` reads what `SetResultCode` wrote, whether it changed an AVP or added one, for a
-- code of 32 bits.
get_result_code-set_result_code :
    (m : Message) (code : ℕ) → code < 2 ^ 32 → get_result_code (set_result_code m code) ≡ some code
get_result_code-set_result_code m code h =
    set_and_read m code _ h refl (update_first-Updated result_code (be32 code) m.avps)

-- Success is 2xxx.
abbrev pub is_success : ℕ → Bool
is_success code = not (ltb code 2000 || leb 3000 code)

-- For a request with flags of 8 bits and a result code of 32 bits, an answer with the result
-- carries the identifiers and the command of its request and the result code; it is no request, is
-- proxiable as the request was, and is an error unless the result is a success and the request had
-- no E flag.
new_answer_with_result_lem :
    (req : Message) (code : ℕ)
    → req.flags < 256
    → code < 2 ^ 32
    → let ans = new_answer_with_result req code in
      (ans.hop_by_hop_id ≡ req.hop_by_hop_id)
      × (ans.end_to_end_id ≡ req.end_to_end_id)
      × (ans.command_code ≡ req.command_code)
      × (is_request ans ≡ false)
      × (is_proxiable ans ≡ is_proxiable req)
      × (is_error ans ≡ (not (is_success code) || is_error req))
      × (get_result_code ans ≡ some code)
unfolding new_answer_with_result is_request is_proxiable is_error get_result_code matches_avp
new_answer_with_result_lem req code hf hc =
    let cleared = clear_flag req.flags cmd_request in
    let byte : cleared < 256 = clear_flag-lt req.flags cmd_request hf in
    let (set, set_request, set_proxiable) = error_set cleared byte in
    let (kept_proxiable, kept_error, _) = others_kept req.flags hf in
    let request = request_cleared req.flags hf in
    let read = ap some (read32-be32 code hc) in
    elim (Bool-cases (ltb code 2000 || leb 3000 code)) [
      | inl failure ↦
          rw failure
            (refl, refl, refl, set_request ∙ request, set_proxiable ∙ kept_proxiable, set, read)
      | inr success ↦ rw success (refl, refl, refl, request, kept_proxiable, kept_error, read)
    ]
