-- ===== src/QMgr/Settings.antt =====
-- `set_audio_properties`, branch by branch.
use rdk_audiocapturemgr.Prelude.{
  refl, inl, inr, ◌⊎◌, Bool-cases, ==_neg, ℕ, ◌*◌, ◌/◌, ◌≡◌, ◌≢◌, some, ◌++◌, Bool, true, false, ok,
  err, div_by_zero, ◌||◌, if◌then◌else◌, arith, ◌==◌, Fault, ==_iff,
}
use mathlib.Core.Logic.{if_pos, if_neg}
use rdk_audiocapturemgr.Prelude.Int.{ℤ, pos, negsuc}
use rdk_audiocapturemgr.Audio.{AudioProperties, CaptureLibrary, calculate_data_rate, u32}
use rdk_audiocapturemgr.QMgr.{QMgr}
use rdk_audiocapturemgr.QMgr.Clients.{set_audio_properties, apply_settings, is_same}

-- The enumerators are below the two limits.
abbrev pub is_invalid : CaptureLibrary → AudioProperties → Bool
is_invalid lib props = lib.format_max_le props.format || lib.freq_max_le props.sampling_frequency

-- Settings that differ in a field are not the same, whatever the padding.
pub is_same-new :
    (lib : CaptureLibrary) (props props' : AudioProperties)
    → props ≢ props'
    → is_same lib props props' ≡ false
unfolding is_same
is_same-new lib props props' new = rw (if_neg _ new) refl

-- The same fields are the same if the padding is.
pub is_same-equal :
    (lib : CaptureLibrary) (props props' : AudioProperties)
    → props ≡ props'
    → is_same lib props props' ≡ lib.same_padding
unfolding is_same
is_same-equal lib props props' same = rw (if_pos _ same) refl

-- New settings are taken over with the data rate that belongs to them, a running device is restarted
-- with them, a stopped one stays stopped, and all clients are told once, in their order.
pub record Applied (props : AudioProperties) (q q' : QMgr) : Type 0 where
  pub properties : q'.audio_properties ≡ props
  pub rate : q'.bytes_per_second ≡ calculate_data_rate props
  pub asked_settings : q'.asked_settings ≡ (if q.started then some props else q.asked_settings)
  pub started : q'.started ≡ q.started
  pub events : q'.events ≡ q.events ++ q.clients
  pub clients : q'.clients ≡ q.clients

module _ (lib : CaptureLibrary) (start_ret stop_ret : ℤ) (props : AudioProperties) (q : QMgr) where
  -- With a threshold above 0 valid new settings are applied, and the result is 0.
  pub set_audio_properties_applies :
      is_same lib q.audio_properties props ≡ false
      → is_invalid lib props ≡ false
      → props.threshold ≢ 0
      → (q' : QMgr) × (set_audio_properties lib start_ret stop_ret props q ≡ ok (q', pos 0))
        × Applied props q q'
  unfolding set_audio_properties
  set_audio_properties_applies new valid some_threshold =
      let rate : ℕ = calculate_data_rate props in
      let limit : ℕ = u32 (u32 (30 * rate) / props.threshold) in
      (
        apply_settings start_ret stop_ret (record q {
          audio_properties = props;
          bytes_per_second = rate;
          max_queue_size = limit;
        }),
        rw (new, valid, ==_neg some_threshold),
        ground arith,
      )

  -- Invalid settings that differ from those in force are refused with -1, and change nothing.
  pub set_audio_properties_keeps :
      is_same lib q.audio_properties props ≡ false
      → is_invalid lib props ≡ true
      → set_audio_properties lib start_ret stop_ret props q ≡ ok (q, negsuc 0)
  unfolding set_audio_properties
  set_audio_properties_keeps new bad = rw (new, bad)

  -- Settings already in force change nothing and succeed.
  pub set_audio_properties_same :
      is_same lib q.audio_properties props ≡ true
      → set_audio_properties lib start_ret stop_ret props q ≡ ok (q, pos 0)
  unfolding set_audio_properties
  set_audio_properties_same same = rw same

  -- set_audio_properties faults exactly for settings that are not those in force, fields and
  -- padding, that are valid and that have the threshold 0; the fault is a division by zero, and
  -- there is no other.
  pub set_audio_properties_divides_by_zero :
      (f : Fault)
      → ((set_audio_properties lib start_ret stop_ret props q ≡ err f)
          → (f ≡ div_by_zero)
            × (is_same lib q.audio_properties props ≡ false)
            × (is_invalid lib props ≡ false)
            × (props.threshold ≡ 0))
        × ((f ≡ div_by_zero)
            → is_same lib q.audio_properties props ≡ false
            → is_invalid lib props ≡ false
            → props.threshold ≡ 0
            → set_audio_properties lib start_ret stop_ret props q ≡ err f)
  unfolding set_audio_properties
  set_audio_properties_divides_by_zero f = (
    (λ e. elim (Bool-cases (is_same lib q.audio_properties props)) [
      | inl same ↦ absurd (ground (arith, same, e))
      | inr new ↦ elim (Bool-cases (is_invalid lib props)) [
        | inl bad ↦ absurd (ground (arith, new, bad, e))
        | inr good ↦ elim (Bool-cases (props.threshold == 0)) [
          | inl zero ↦ ground (arith, new, good, zero, e, ==_iff props.threshold 0)
          | inr some_threshold ↦ absurd (ground (arith, new, good, some_threshold, e))
        ]
      ]
    ]),
    λ fault new valid zero_threshold. rw (new, valid, zero_threshold, fault) refl,
  )

  -- With a threshold above 0 nothing faults, and the clients stay; the data rate is that before, or
  -- that of the new settings.
  pub set_audio_properties-clients :
      props.threshold ≢ 0
      → (q' : QMgr) × (ret : ℤ) × (set_audio_properties lib start_ret stop_ret props q
          ≡ ok (q', ret))
        × (q'.clients ≡ q.clients)
        × ((q'.bytes_per_second ≡ q.bytes_per_second)
            ⊎ (q'.bytes_per_second ≡ calculate_data_rate props))
  set_audio_properties-clients some_threshold =
      elim (Bool-cases (is_same lib q.audio_properties props)) [
        | inl same ↦ (q, pos 0, set_audio_properties_same same, refl, inl refl)
        | inr new ↦ elim (Bool-cases (is_invalid lib props)) [
          | inl bad ↦ (q, negsuc 0, set_audio_properties_keeps new bad, refl, inl refl)
          | inr good ↦
              let (q', runs, applied) = set_audio_properties_applies new good some_threshold in
              (q', pos 0, runs, applied.clients, inr applied.rate)
        ]
      ]
