-- ===== src/PayoutFile/Header.antt =====
-- The header of a payout file: app/core/payout_file.py, lines 96 to 145, 196 to 215 and 300 to 320.
use Prim.Native.Nat.{◌^◌}
use avora_be.Prelude.{
  ℕ, zero, suc, ◌+◌, ◌/◌, ◌%◌, Bool, true, false, not, ◌&&◌, ◌||◌, Option, none, some, List, [],
  ◌∷◌, ◌++◌, ltb, ◌==◌, if◌then◌else◌, is_some,
}
use avora_be.PayoutFile.Text.{Text, codes, text_eq, strip, normalize_header}
use avora_be.PayoutFile.Amount.{Cell}

pub data PayoutField : Type 0 where
  employee_number account_number email name amount reference status : PayoutField

-- `_ALIASES`
abbrev pub aliases : PayoutField → List Text
aliases PayoutField.employee_number =
    codes "employeeno"
    ∷ codes "employeenumber"
    ∷ codes "empno"
    ∷ codes "employeeid"
    ∷ codes "empid"
    ∷ codes "employeecode"
    ∷ codes "empcode"
    ∷ codes "staffid"
    ∷ codes "staffno"
    ∷ []
aliases PayoutField.account_number =
    codes "accountnumber"
    ∷ codes "accountno"
    ∷ codes "bankaccountnumber"
    ∷ codes "bankaccountno"
    ∷ codes "beneficiaryaccountnumber"
    ∷ codes "beneficiaryaccountno"
    ∷ codes "creditaccountnumber"
    ∷ codes "acno"
    ∷ codes "acctno"
    ∷ codes "account"
    ∷ []
aliases PayoutField.email =
    codes "workemail"
    ∷ codes "email"
    ∷ codes "emailid"
    ∷ codes "emailaddress"
    ∷ codes "officialemail"
    ∷ codes "beneficiaryemail"
    ∷ []
aliases PayoutField.name =
    codes "employeename"
    ∷ codes "name"
    ∷ codes "payeename"
    ∷ codes "beneficiaryname"
    ∷ codes "accountholdername"
    ∷ []
aliases PayoutField.amount =
    codes "totalpay"
    ∷ codes "netmonthlytotalpay"
    ∷ codes "netpay"
    ∷ codes "amountpaid"
    ∷ codes "paidamount"
    ∷ codes "payoutamount"
    ∷ codes "transactionamount"
    ∷ codes "txnamount"
    ∷ codes "creditamount"
    ∷ codes "netamount"
    ∷ codes "netsalary"
    ∷ codes "netpayable"
    ∷ codes "amountinr"
    ∷ codes "amount"
    ∷ []
aliases PayoutField.reference =
    codes "utr"
    ∷ codes "utrno"
    ∷ codes "utrnumber"
    ∷ codes "bankreference"
    ∷ codes "referenceno"
    ∷ codes "referencenumber"
    ∷ codes "reference"
    ∷ codes "transactionid"
    ∷ codes "transactionreference"
    ∷ codes "paymentreference"
    ∷ codes "txnref"
    ∷ []
aliases PayoutField.status =
    codes "paymentstatus" ∷ codes "transactionstatus" ∷ codes "txnstatus" ∷ codes "status" ∷ []

-- The digits of a number, the last first, with fuel above it.
abbrev digits_back : ℕ → ℕ → Text
digits_back zero n = []
digits_back (suc fuel) n =
    let more = (b'0' + n % 10) ∷ digits_back fuel (n / 10) in
    if ltb n 10 then (b'0' + n) ∷ [] else more

abbrev back : Text → Text → Text
back [] out = out
back (c ∷ s) out = back s (c ∷ out)

-- `str(n)`
unfoldable pub show_nat : ℕ → Text
show_nat n = back (digits_back (suc n) n) []

-- The fraction of a number behind its point: `places` digits.
abbrev show_places : ℕ → ℕ → Text → Text
show_places zero n out = out
show_places (suc places) n out = show_places places (n / 10) ((b'0' + n % 10) ∷ out)

abbrev signed : Bool → Text → Text
signed minus s = if minus then b'-' ∷ s else s

-- `value.is_integer()`
abbrev pub is_whole : ℕ → ℕ → Bool
is_whole mantissa places = mantissa % 10 ^ places == 0

-- `_cell_text`: a whole float loses its ".0". A float that Python prints with an exponent is
-- printed here with all its digits.
unfoldable pub cell_text : Cell → Text
unfolding show_nat
cell_text Cell.empty = []
cell_text (Cell.boolean true) = codes "True"
cell_text (Cell.boolean false) = codes "False"
cell_text (Cell.number minus mantissa places is_float) = signed (minus && not (mantissa == 0)) (
    if is_whole mantissa places
    then show_nat (mantissa / 10 ^ places)
    else show_nat (mantissa / 10 ^ places) ++ (b'.' ∷ show_places places mantissa []))
cell_text (Cell.not_finite s) = s
cell_text (Cell.text s) = strip s

-- `str(value)` in a header, "" for none.
abbrev header_text : Cell → Text
header_text (Cell.text s) = s
header_text c = cell_text c

-- `positions`, kept by `setdefault`: the first column of a header.
unfoldable pub position : Text → ℕ → List Cell → Option ℕ
unfolding cell_text
position alias index [] = none
position alias index (c ∷ cells) =
    if text_eq (normalize_header (header_text c)) alias
    then some index
    else position alias (index + 1) cells

-- The first alias that is a header.
abbrev pub first_position : List Text → List Cell → Option ℕ
first_position [] cells = none
first_position (alias ∷ rest) cells = elim (position alias 0 cells) [
  | some i ↦ some i
  | none ↦ first_position rest cells
]

abbrev pub column_of : PayoutField → List Cell → Option ℕ
column_of field cells = first_position (aliases field) cells

abbrev pub take {ℓ} : {A : Type ℓ} → ℕ → List A → List A
take zero xs = []
take (suc n) [] = []
take (suc n) (x ∷ xs) = x ∷ take n xs

abbrev pub max_columns : ℕ
max_columns = 200

-- `mapping`: the column of a field, if the header has it.
abbrev pub Mapping : Type 0
Mapping = PayoutField → Option ℕ

-- `_header_map`
unfoldable pub header_map : List Cell → Option Mapping
unfolding position
header_map cells =
    let mapping : Mapping = λ field. column_of field (take max_columns cells) in
    if is_some (mapping PayoutField.amount)
      && (is_some (mapping PayoutField.employee_number)
          || is_some (mapping PayoutField.account_number)
          || is_some (mapping PayoutField.email))
    then some mapping
    else none
