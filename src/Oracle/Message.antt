-- ===== src/Oracle/Message.antt =====
-- A message names one user, one address and one expiry.
use trustbridge_contract.Base.{
  ℕ, ◌≡◌, ◌≤◌, ◌∙◌, sym, ap, some, List, ◌∷◌, ◌++◌, arith, u64_max, some_eq, Lacks, split_at,
}
use trustbridge_contract.Oracle.{ownership_message, colon}
use trustbridge_contract.Oracle.Digits.{read_digits, digits_of_u64}

message_of :
    (name address : List ℕ) (n : ℕ)
    → n ≤ u64_max
    → (ds : List ℕ) × (ownership_message name address n
        ≡ some (name ++ (colon ∷ (address ++ (colon ∷ ds)))))
      × (read_digits 0 ds ≡ n)
unfolding ownership_message
message_of name address n h =
    let (ds, written, back) = digits_of_u64 n h in (ds, ground (arith, written), back)

-- Two ownership messages with names and address texts free of colons and with expiries of u64 are
-- equal only if name, address text and expiry are equal.
pub ownership_message-injective :
    (name name' address address' : List ℕ) (n n' : ℕ)
    → Lacks colon name
    → Lacks colon name'
    → Lacks colon address
    → Lacks colon address'
    → n ≤ u64_max
    → n' ≤ u64_max
    → ownership_message name address n ≡ ownership_message name' address' n'
    → (name ≡ name') × (address ≡ address') × (n ≡ n')
ownership_message-injective name name' address address' n n' h h' k k' l l' e =
    let (ds, is, back) = message_of name address n l in
    let (ds', is', back') = message_of name' address' n' l' in
    let (same_name, rest) = split_at colon name _ name' _ h h' (some_eq _ _ (sym is ∙ e ∙ is')) in
    let (same_address, same_digits) = split_at colon address ds address' ds' k k' rest in
    (same_name, same_address, sym back ∙ ap (read_digits 0) same_digits ∙ back')
