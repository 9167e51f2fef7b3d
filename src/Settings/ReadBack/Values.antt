-- ===== src/Settings/ReadBack/Values.antt =====
-- What is written to an argument of each kind is read back.
use soapy_sdrplay.Prelude.{
  ℕ, ◌%◌, ◌≤◌, ◌≡◌, refl, sym, ap, ◌∙◌, subst, ◌⊎◌, inl, inr, Bool, true, false, Option, some, [],
  ◌∷◌, arith, if◌then◌else◌, All,
}
use soapy_sdrplay.Ipc.Bytes.{Bytes}
use soapy_sdrplay.Ipc.Numeric.{ascii, same}
use soapy_sdrplay.Device.{HwVer, Signed}
use soapy_sdrplay.Settings.{
  Driver, Flag, Switch, switch, wrote, Update, update, agc, tuner_gr, hdr_bandwidth, with_number,
  write_key, parse_hdr_bw, has_hdr,
}
use soapy_sdrplay.Settings.Reading.{write_setting, read_setting, key_name, read_key, print_hdr_bw}
use soapy_sdrplay.Settings.Members.{member}
use soapy_sdrplay.Settings.RoundTrip.{read_setting-write_setting}
use soapy_sdrplay.Settings.Info.{
  int, ArgInfo, rf_gain_arg, set_point_arg, hdr_bw_arg, max_recovery_arg, callback_timeout_arg,
  recovery_args,
}
use soapy_sdrplay.Settings.Listed.{
  Conversions, OneOf, Allows, OneOf-decimals, rf_gain_options_lem, size_in_range,
}

update-set_point : (u : Update) (d : Driver) → (update u d).set_point ≡ d.set_point
unfolding update
update-set_point u d = ground arith

update-lna_state : (u : Update) (d : Driver) → (update u d).lna_state ≡ d.lna_state
unfolding update
update-lna_state u d = ground arith

update-hdr_bw : (u : Update) (d : Driver) → (update u d).hdr_bw ≡ d.hdr_bw
unfolding update
update-hdr_bw u d = ground arith

update-hw_ver : (u : Update) (d : Driver) → (update u d).hw_ver ≡ d.hw_ver
unfolding update
update-hw_ver u d = ground arith

print_hdr_bw-parse_hdr_bw :
    (v : Bytes)
    → OneOf v (ascii "0.200" ∷ ascii "0.500" ∷ ascii "1.200" ∷ ascii "1.700" ∷ [])
    → print_hdr_bw (parse_hdr_bw v) ≡ v
unfolding print_hdr_bw parse_hdr_bw
print_hdr_bw-parse_hdr_bw v (inl e) = rw e refl
print_hdr_bw-parse_hdr_bw v (inr (inl e)) = rw e refl
print_hdr_bw-parse_hdr_bw v (inr (inr (inl e))) = rw e refl
print_hdr_bw-parse_hdr_bw v (inr (inr (inr (inl e)))) = rw e refl
print_hdr_bw-parse_hdr_bw v (inr (inr (inr (inr e)))) = absurd e

module _ {stoi : Bytes → Option Signed} {stoul : Bytes → Option ℕ} {to_string : Signed → Bytes}
    (numbers : Conversions stoi stoul to_string) (d : Driver) where
  -- What is written is read.
  abbrev pub ReadsBack : Bytes → Bytes → Type 0
  ReadsBack key v =
      (d' : Driver) × (write_setting stoi stoul key v d ≡ wrote d')
      × (read_setting to_string key d' ≡ v)

  -- Every value that the description allows is.
  abbrev pub AllReadBack : ArgInfo → Type 0
  AllReadBack a = (v : Bytes) → Allows to_string a.type v → ReadsBack a.key v

  by_cases :
      (key : Bytes) (v : Bytes)
      → ReadsBack key (ascii "true")
      → ReadsBack key (ascii "false")
      → (v ≡ ascii "true") ⊎ (v ≡ ascii "false")
      → ReadsBack key v
  by_cases key v t f (inl e) = rw e t
  by_cases key v t f (inr e) = rw e f

  pub switch-ReadsBack :
      d.has_dev_params ≡ true
      → (s : Switch) (f : Flag) → member s d.hw_ver d.am_port d.tuner ≡ some f
      → (v : Bytes) → (v ≡ ascii "true") ⊎ (v ≡ ascii "false")
      → ReadsBack (key_name (switch s)) v
  unfolding same
  switch-ReadsBack present s f has v =
      by_cases (key_name (switch s)) v
        (read_setting-write_setting stoi stoul to_string s (ascii "true") d f present has)
        (read_setting-write_setting stoi stoul to_string s (ascii "false") d f present has)

  -- A number of the range is parsed as what was printed.
  parsed :
      (lo hi : Signed) (v : Bytes)
      → lo.1 ≤ 10000
      → hi.1 ≤ 10000
      → Allows to_string (int lo hi) v
      → (x : Signed) × (stoi v ≡ some x) × (v ≡ to_string x)
  parsed lo hi v p q (x, canonical, l, u, e) =
      let small = size_in_range 10000 lo x hi p q l u in
      (x, rw e (numbers.stoi-to_string x canonical (omega arith)), e)

  pub set_point_reads_back : AllReadBack set_point_arg
  unfolding write_setting read_setting write_key read_key
  set_point_reads_back v allowed =
      let (x, read, e) = parsed (true, 60) (false, 0) v (omega arith) (omega arith) allowed in
      let written : Signed → Driver = λ y. update agc (record d { set_point = y }) in
      (
        written x,
        ap (λ o. with_number o written) read,
        ap to_string (update-set_point agc (record d { set_point = x })) ∙ sym e,
      )

  max_recovery_reads_back : AllReadBack max_recovery_arg
  unfolding write_setting read_setting write_key read_key
  max_recovery_reads_back v allowed =
      let (x, read, e) = parsed (false, 0) (false, 10) v (omega arith) (omega arith) allowed in
      (
        record d { max_recovery_attempts = x },
        ap (λ o. with_number o (λ y. record d { max_recovery_attempts = y })) read,
        sym e,
      )

  callback_timeout_reads_back : AllReadBack callback_timeout_arg
  unfolding write_setting read_setting write_key read_key
  callback_timeout_reads_back v allowed =
      let (x, read, e) = parsed (false, 500) (false, 10000) v (omega arith) (omega arith) allowed in
      (
        record d { callback_timeout_ms = x },
        ap (λ o. with_number o (λ y. record d { callback_timeout_ms = y })) read,
        sym e,
      )

  pub rf_gain_reads_back : (h : HwVer) → AllReadBack (rf_gain_arg h)
  unfolding write_setting read_setting write_key read_key rf_gain_arg
  rf_gain_reads_back h v allowed =
      let (k, few, options) = rf_gain_options_lem h in
      let (n, lt, e) = OneOf-decimals k 0 v (subst (OneOf v) options allowed) in
      let written : ℕ → Driver = λ x. update tuner_gr (record d { lna_state = x % 256 }) in
      let read = ap stoul e ∙ numbers.stoul-decimal n (omega arith) in
      let small : n % 256 ≡ n = omega arith in
      (
        written n,
        ap (λ o. with_number o written) read,
        ap (λ (x : ℕ). to_string (false, x))
              (update-lna_state tuner_gr (record d { lna_state = n % 256 }) ∙ small)
            ∙ numbers.to_string-decimal n (omega arith)
            ∙ sym e,
      )

  pub recovery_reads_back : All AllReadBack recovery_args
  unfolding recovery_args write_setting read_setting write_key read_key
  recovery_reads_back = (
    (λ v. by_cases (ascii "watchdog_enabled") v (_, refl, refl) (_, refl, refl)),
    (
      (λ v. by_cases (ascii "auto_recover") v (_, refl, refl) (_, refl, refl)),
      (
        max_recovery_reads_back,
        (
          callback_timeout_reads_back,
          (
            (λ v. by_cases (ascii "restart_service_on_failure") v (_, refl, refl) (_, refl, refl)),
            ((λ v. by_cases (ascii "usb_reset_on_failure") v (_, refl, refl) (_, refl, refl)), tt),
          ),
        ),
      ),
    ),
  )

  pub hdr_bw_reads_back : has_hdr d.hw_ver ≡ true → AllReadBack hdr_bw_arg
  unfolding write_setting read_setting write_key read_key
  hdr_bw_reads_back has v allowed =
      let written : Driver = update hdr_bandwidth (record d { hdr_bw = parse_hdr_bw v }) in
      (
        written,
        ap (λ (b : Bool). if b then wrote written else wrote d) has,
        ap (λ (b : Bool). if b then print_hdr_bw written.hdr_bw else ascii "1.700")
              (ap has_hdr (update-hw_ver hdr_bandwidth (record d { hdr_bw = parse_hdr_bw v }))
                ∙ has)
            ∙ ap print_hdr_bw (update-hdr_bw hdr_bandwidth (record d { hdr_bw = parse_hdr_bw v }))
            ∙ print_hdr_bw-parse_hdr_bw v allowed,
      )
