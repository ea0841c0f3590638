-- ===== src/Tests/Finder.antt =====
-- The finder on sample transactions.
use mathlib.Core.Bool.{false≢true}
use tx_xrpl_token_migrator.Base.{
  ap, false, ◌≡◌, Memᴰ, Bool, sym, ◌∙◌, ◌≤◌, ◌<◌, ◌*◌, ◌+◌, ◌^◌, refl, ◌↔◌, true, ℕ, Option, none,
  some, List, [], ◌∷◌, arith,
}
use tx_xrpl_token_migrator.Base.Int.{ℤ, pos, ◌+ℤ◌, ◌≤ℤ◌, ◌-ℤ◌, ◌*ℤ◌, quo}
use tx_xrpl_token_migrator.Base.Str.{Str, codes, str_eq, has_suffix, trim_suffix}
use tx_xrpl_token_migrator.Base.Go.{ok}
use tx_xrpl_token_migrator.Rat.{rat_sub, rat_mul, rat_abs, rat_leb, rat_ltb}
use tx_xrpl_token_migrator.Ripple.{Amount, Account, Balance}
use tx_xrpl_token_migrator.Xrpl.Model.{
  Transaction, transaction_type_payment, transaction_result_success,
}
use tx_xrpl_token_migrator.Finder.Convert.{multiplier_rat, convert_xrpl_amount_to_tx_amount}
use tx_xrpl_token_migrator.Finder.Convert.Bounds.{convert_bounds, convert_split}
use tx_xrpl_token_migrator.Finder.Memo.{extract_address_from_memo}
use tx_xrpl_token_migrator.Finder.Memo.First.{FirstAddress, extract_first}
use tx_xrpl_token_migrator.Finder.Burn.{tally_balance, received_at_least_delivered_amount}
use tx_xrpl_token_migrator.Finder.Burn.Relevant.{burn_relevant_only}
use tx_xrpl_token_migrator.Finder.Burn.Sum.{Sums}
use tx_xrpl_token_migrator.Finder.Burn.Exact.{Covers, burn_received}
use tx_xrpl_token_migrator.Finder.Build.{
  Pending, Config, build_pending_transaction, convert_xrpl_amount_to_tx_coin, pay_out, verify_burn,
  check_token,
}
use tx_xrpl_token_migrator.Finder.Build.Accepts.{IsBurn, build_accepts}
use tx_xrpl_token_migrator.Finder.Forward.{Inbound, forward_pending}
use tx_xrpl_token_migrator.Finder.Forward.Exact.{HasBurn, inbound_txs, forward_exact}
use tx_xrpl_token_migrator.Xrpl.Scanner.{Ending}
use tx_xrpl_token_migrator.Tests.Samples.{ripple, ripple_laws, sdk, sdk_laws, parser}

abbrev pub issuer : Account
issuer = codes "I"

abbrev pub currency : Str
currency = codes "C"

abbrev pub suffix : Str
suffix = codes "/tx"

abbrev pub cfg : Config
cfg = record {
  xrpl_issuer = issuer;
  xrpl_currency = currency;
  activation_date = pos 5;
  multiplier = codes "1.5";
  xrpl_history_scan_start_ledger = pos 1;
  xrpl_recent_scan_indexes_back = pos 30;
  xrpl_memo_suffix = suffix;
  tx_denom = codes "utx";
  tx_decimals = 6;
}

abbrev pub ten : Amount ℤ
ten = record { value = some (pos 10); currency = currency; issuer = issuer }

abbrev pub changed : ℕ → Balance ℤ
changed n = record {
  counter_party = codes "U";
  balance = pos 0;
  change = pos n;
  currency = currency;
}

abbrev other_currency : Balance ℤ
other_currency = record {
  counter_party = codes "U";
  balance = pos 9;
  change = pos 100;
  currency = codes "D";
}

abbrev pub effects : List (Balance ℤ) → Option (Account → Option (List (Balance ℤ)))
effects bs = some (λ account. some bs)

abbrev memo_texts : List Str
memo_texts = codes "hello" ∷ codes "x/tx" ∷ codes "tab/tx" ∷ codes "tcd/tx" ∷ []

abbrev pub burn : List (Balance ℤ) → Transaction ripple
burn bs = record {
  account = codes "U";
  destination = issuer;
  delivery_amount = ten;
  memos = memo_texts;
  hash = codes "H";
  transaction_type = transaction_type_payment;
  transaction_result = transaction_result_success;
  ledger_index = pos 80;
  sequence = pos 1;
  date = pos 5;
  validated = true;
  affected_nodes = effects bs;
}

abbrev pub paid : Pending
paid = record {
  tx_destination = codes "ab";
  tx_amount = record { denom = codes "utx"; amount = pos 15_000_000 };
  xrpl_tx_hash = codes "H";
}

build_pays :
    build_pending_transaction ripple sdk parser cfg
      (burn (other_currency ∷ changed 7 ∷ changed 3 ∷ []))
    ≡ ok (some paid)
unfolding build_pending_transaction check_token verify_burn pay_out convert_xrpl_amount_to_tx_coin
    convert_xrpl_amount_to_tx_amount multiplier_rat extract_address_from_memo
    received_at_least_delivered_amount tally_balance str_eq has_suffix trim_suffix rat_mul rat_abs
    rat_ltb ◌*ℤ◌ ◌+ℤ◌ ◌-ℤ◌ quo
build_pays = refl

build_skips_unburned :
    build_pending_transaction ripple sdk parser cfg (burn (other_currency ∷ changed 9 ∷ []))
    ≡ ok none
unfolding build_pending_transaction check_token verify_burn extract_address_from_memo
    received_at_least_delivered_amount tally_balance str_eq has_suffix trim_suffix rat_mul rat_abs
    rat_ltb rat_sub rat_leb ◌*ℤ◌ ◌+ℤ◌ ◌-ℤ◌
build_skips_unburned = refl

abbrev inbound : List (Inbound ripple)
inbound =
    Inbound.receive (burn (other_currency ∷ changed 9 ∷ [])) true
    ∷ Inbound.receive (burn (other_currency ∷ changed 7 ∷ changed 3 ∷ [])) true
    ∷ Inbound.done
    ∷ []

forward_runs : forward_pending ripple sdk parser cfg inbound ≡ (paid ∷ [], Ending.canceled)
unfolding forward_pending
forward_runs = rw (build_skips_unburned, build_pays, forward_pending) refl

abbrev is_crashed : Ending → Bool
is_crashed e = elim e [ Ending.crashed ↦ true | _ ↦ false ]

forward_exact_example :
    Memᴰ paid (forward_pending ripple sdk parser cfg inbound).0
    ↔ HasBurn ripple sdk parser cfg (inbound_txs inbound) paid
forward_exact_example =
    forward_exact ripple sdk parser cfg inbound paid (refl, (refl, (tt, tt)))
      (λ c. absurd (false≢true (ap is_crashed (sym (ap (λ z. z.1) forward_runs) ∙ c))))

build_accepts_example :
    (build_pending_transaction ripple sdk parser cfg (burn (changed 10 ∷ [])) ≡ ok (some paid))
    ↔ IsBurn ripple sdk parser cfg (burn (changed 10 ∷ [])) paid
build_accepts_example = build_accepts ripple sdk parser cfg (burn (changed 10 ∷ [])) paid

extract_first_example :
    (extract_address_from_memo sdk memo_texts suffix ≡ some (codes "ab"))
    ↔ FirstAddress sdk suffix memo_texts (codes "ab")
extract_first_example = extract_first sdk suffix memo_texts (codes "ab")

convert_bounds_example :
    (t : ℕ) × (convert_xrpl_amount_to_tx_amount ripple sdk parser (some (pos 7)) 0 (codes "1.5")
      ≡ ok (pos t))
    × (t * (1 * 2) ≤ 10 ^ 0 * (7 * 3))
    × (10 ^ 0 * (7 * 3) < (t + 1) * (1 * 2))
unfolding multiplier_rat str_eq
convert_bounds_example =
    convert_bounds {S = sdk} parser ripple_laws sdk_laws (pos 7) 0 (codes "1.5") 7 3
      (record { num = pos 3; den = 2 }) refl refl refl (omega arith)

convert_split_example : pos 4 +ℤ pos 4 ≤ℤ pos 9
unfolding convert_xrpl_amount_to_tx_amount multiplier_rat str_eq rat_mul ◌*ℤ◌ quo
convert_split_example =
    convert_split {S = sdk} parser ripple_laws sdk_laws (pos 3) (pos 3) (pos 6) 0 (codes "1.5") 3 3
      6 3 (record { num = pos 3; den = 2 }) refl refl refl refl refl (omega arith) refl refl refl

burn_relevant_only_example :
    received_at_least_delivered_amount ripple issuer ten (effects (other_currency ∷ changed 7 ∷ []))
    ≡ received_at_least_delivered_amount ripple issuer ten (effects (changed 7 ∷ []))
unfolding str_eq
burn_relevant_only_example =
    burn_relevant_only ripple issuer ten (effects (other_currency ∷ changed 7 ∷ []))
      (effects (changed 7 ∷ [])) refl refl refl refl refl

-- A balance so large that one is within its tolerance.
abbrev held : Balance ℤ
held = record (changed 3) { balance = pos (10 ^ 15) }

burn_received_example :
    (received_at_least_delivered_amount ripple issuer ten
        (effects (changed 6 ∷ other_currency ∷ held ∷ []))
      ≡ ok true)
    ↔ ((total : ℤ) × Sums ripple (changed 6 ∷ held ∷ []) total
        × Covers ripple issuer ten (pos 10) (changed 6 ∷ held ∷ []) total)
unfolding str_eq
burn_received_example =
    burn_received ripple issuer ten ripple_laws (effects (changed 6 ∷ other_currency ∷ held ∷ []))
      (pos 10) refl refl refl

burn_tolerated :
    received_at_least_delivered_amount ripple issuer ten
      (effects (changed 6 ∷ other_currency ∷ held ∷ []))
    ≡ ok true
unfolding received_at_least_delivered_amount tally_balance str_eq rat_mul rat_abs rat_ltb rat_sub
    rat_leb ◌*ℤ◌ ◌+ℤ◌ ◌-ℤ◌
burn_tolerated = refl
