-- ===== src/Printf/Number.antt =====
-- `PrintNum`, `PrintString` and `PrintChar`: what they leave in `buf`, up to the length that they
-- return.
pub mod Reversal
pub mod Padding
pub mod Conversions
use Prim.Native.Nat.{max}
use qcom_ipq_aux_loader.Base.{
  ℕ, zero, suc, ◌+◌, ◌-◌, Bool, true, false, Option, none, some, List, [], ◌∷◌, ◌++◌, ◌&&◌, not,
  length, get_or, set, replicate, ltb, ◌==◌, if◌then◌else◌,
}
use qcom_ipq_aux_loader.Printf.Digits.{my_dec2str, my_hex2str}

-- `while (end > begin) { swap buf[begin], buf[end]; begin++; end--; }`
unfoldable pub swap_loop : ℕ → ℕ → ℕ → List ℕ → List ℕ
swap_loop zero begin end buf = buf
swap_loop (suc rounds) begin end buf =
    let tmp = get_or buf begin 0 in
    let rest =
      swap_loop rounds (begin + 1) (end - 1) (set (set buf begin (get_or buf end 0)) end tmp) in
    if ltb begin end then rest else buf

-- The digits, by base; a base other than 10 and 16 writes none.
unfoldable pub number_digits : ℕ → ℕ → Bool → Option (List ℕ)
number_digits u base upcase =
    if base == 10 then my_dec2str u upcase else if base == 16 then my_hex2str u upcase else some []

-- `buf` behind the digits, before it is reversed.
unfoldable pub pad : List ℕ → Bool → ℕ → Bool → ℕ → List ℕ
pad digits negFlag length' ladjust padc =
    let signed = if negFlag then digits ++ b'-' ∷ [] else digits in
    let actualLength = length signed in
    let total = max length' actualLength in
    let padc' = if ladjust then b' ' else padc in
    if negFlag && not ladjust && (padc' == b'0')
    then digits ++ replicate (total - actualLength) padc' ++ b'-' ∷ []
    else signed ++ replicate (total - actualLength) padc'

unfoldable pub print_num : ℕ → ℕ → Bool → ℕ → Bool → ℕ → Bool → Option (List ℕ)
print_num u base negFlag length' ladjust padc upcase = elim (number_digits u base upcase) [
  | none ↦ none
  | some digits ↦
      let buf = pad digits negFlag length' ladjust padc in
      let actualLength = length digits + (if negFlag then 1 else 0) in
      let end = (if ladjust then actualLength else length buf) - 1 in
      some (swap_loop (length buf) 0 end buf)
]

unfoldable pub print_char : ℕ → ℕ → Bool → List ℕ
print_char c length' ladjust =
    let total = max length' 1 in
    if ladjust then c ∷ replicate (total - 1) b' ' else replicate (total - 1) b' ' ++ c ∷ []

unfoldable pub print_string : List ℕ → ℕ → Bool → List ℕ
print_string s length' ladjust =
    let total = max length' (length s) in
    if ladjust
    then s ++ replicate (total - length s) b' '
    else replicate (total - length s) b' ' ++ s
