-- ===== src/FibDecoder/Session/Data.antt =====
-- What the data of an audio service are taken from: entries of the collected tables that
-- name each other by their keys, without the look-up functions.
use mathlib.Core.Path.{subst}
use mathlib.Core.Option.{some-injective}
use dabstar.Prelude.{
  ℕ, zero, suc, ◌≡◌, ◌⊎◌, refl, sym, ap, ◌∙◌, inl, inr, Bool, true, Bool-cases, Option,
  Option-cases, none, some, List, [], ◌∷◌, ◌>>=◌, ◌==◌, ◌&&◌, arith,
}
use dabstar.SubChannel.Fig01.{SubChannelOrganization, organization_of}
use dabstar.FibDecoder.Tables.{IsAmong, find_by_holds, find_by-IsAmong}
use dabstar.FibDecoder.Config.{
  TransportMode, stream_mode_audio, stream_mode_data, reserved, packet_mode_data, ServiceCompDef,
}
use dabstar.FibDecoder.Labels.{Label, ServiceLabel, FibLabels, programme_label_of, is_service}
use dabstar.FibDecoder.State.{FibDecoder, is_some}
use dabstar.FibDecoder.Services.{
  AudioData, make_audio_data, audio_data_by_mode, audio_data_of, has_audio_data,
}

pub bind-some {ℓ κ} :
    {A : Type ℓ} {B : Type κ} (o : Option A) (f : A → Option B) (b : B)
    → (o >>= f) ≡ some b
    → (a : A) × ((o ≡ some a) × (f a ≡ some b))
bind-some none f b h = ground arith
bind-some (some a) f b h = (a, (refl, h))

pub same_number : (i j : ℕ) → (i == j) ≡ true → i ≡ j
same_number i j h = ground arith

both_true : (a b : Bool) → (a && b) ≡ true → (a ≡ true) × (b ≡ true)
both_true a b h = ground arith

pub same_pair : (i j k l : ℕ) → (i == j && k == l) ≡ true → (i ≡ j) × (k ≡ l)
same_pair i j k l h = ground arith

pub organization_of-IsAmong :
    (es : List SubChannelOrganization) (i : ℕ) (o : SubChannelOrganization)
    → organization_of es i ≡ some o
    → IsAmong o es × (o.sub_ch_id ≡ i)
unfolding organization_of
organization_of-IsAmong [] i o h = ground arith
organization_of-IsAmong (e ∷ es) i o h = elim (Bool-cases (e.sub_ch_id == i)) [
  | inl t ↦ ((zero, ground arith), ground arith)
  | inr f ↦ let ((n, at), key) = organization_of-IsAmong es i o (ground arith) in ((suc n, at), key)
]

-- FIG 1/1 or 1/5 gave this label for the service.
abbrev pub IsLabelled : List ServiceLabel → ℕ → Label → Type 0
IsLabelled ls s_id l = IsAmong (record { s_id = s_id; label = l }) ls

pub service_label-IsLabelled :
    (ls : List ServiceLabel) (s_id : ℕ) (k : ServiceLabel)
    → IsAmong k ls
    → is_service s_id k ≡ true
    → IsLabelled ls s_id k.label
service_label-IsLabelled ls s_id k (n, at) key =
    let same : k.s_id ≡ s_id = same_number k.s_id s_id key in
    (n, at ∙ ap (λ i. some (record { s_id = i; label = k.label })) same)

-- The data `a` are those of the audio component `e`: its service, its type, the sub-channel that it
-- names, and the label that FIG 1/1 gave for the service, if it gave one.
pub record IsAudioDataOf (s : FibDecoder) (e : ServiceCompDef) (a : AudioData) : Type 0 where
  pub same_service : a.s_id ≡ e.s_id
  pub same_mode : e.mode ≡ stream_mode_audio a.asc_ty a.organization.sub_ch_id
  pub collected : IsAmong a.organization s.curr.organizations
  pub labelled :
      (a.service_label ≡ none)
      ⊎ ((l : Label) × (a.service_label ≡ some l) × IsLabelled s.labels.programmes e.s_id l)

label_cases :
    (ls : FibLabels) (s_id : ℕ)
    → ((programme_label_of ls s_id >>= λ k. some k.label) ≡ none)
      ⊎ ((l : Label) × ((programme_label_of ls s_id >>= λ k. some k.label) ≡ some l)
          × IsLabelled ls.programmes s_id l)
unfolding programme_label_of
label_cases ls s_id = elim (Option-cases (programme_label_of ls s_id)) [
  | inl nothing ↦ inl (rw nothing refl)
  | inr (k, known) ↦ inr (
    k.label,
    rw known refl,
    service_label-IsLabelled ls.programmes s_id k
        (find_by-IsAmong (is_service s_id) ls.programmes k known)
        (find_by_holds (is_service s_id) ls.programmes k known),
  )
]

made-IsAudioDataOf :
    (s : FibDecoder) (e : ServiceCompDef) (asc_ty i : ℕ) (o : SubChannelOrganization)
    → e.mode ≡ stream_mode_audio asc_ty i
    → organization_of s.curr.organizations i ≡ some o
    → IsAudioDataOf s e (make_audio_data s e asc_ty o)
unfolding make_audio_data
made-IsAudioDataOf s e asc_ty i o mode found =
    let (among, key) = organization_of-IsAmong s.curr.organizations i o found in
    record {
      same_service = refl;
      same_mode = mode ∙ ap (stream_mode_audio asc_ty) (sym key);
      collected = among;
      labelled = label_cases s.labels e.s_id;
    }

by_mode-IsAudioDataOf :
    (s : FibDecoder) (e : ServiceCompDef) (m : TransportMode) (a : AudioData)
    → e.mode ≡ m
    → audio_data_by_mode s e m ≡ some a
    → IsAudioDataOf s e a
unfolding audio_data_by_mode
by_mode-IsAudioDataOf s e (stream_mode_audio asc_ty i) a mode h =
    let (o, (found, same)) =
      bind-some (organization_of s.curr.organizations i) (λ o. some (make_audio_data s e asc_ty o))
        a h in
    subst (IsAudioDataOf s e) (some-injective _ _ same)
      (made-IsAudioDataOf s e asc_ty i o mode found)
by_mode-IsAudioDataOf s e (stream_mode_data d i) a mode h = ground arith
by_mode-IsAudioDataOf s e reserved a mode h = ground arith
by_mode-IsAudioDataOf s e (packet_mode_data i) a mode h = ground arith

pub audio_data_of-IsAudioDataOf :
    (s : FibDecoder) (e : ServiceCompDef) (a : AudioData)
    → audio_data_of s e ≡ some a
    → IsAudioDataOf s e a
unfolding audio_data_of
audio_data_of-IsAudioDataOf s e a h = elim (Bool-cases (e.pd_flag == 0)) [
  | inl programme ↦ by_mode-IsAudioDataOf s e e.mode a refl (rw programme at h)
  | inr data_service ↦ absurd (ground arith)
]

-- Everything that an audio component needs is collected: FIG 0/1 of the sub-channel that it names and
-- FIG 1/1 of its service.
pub record HasAudioParts (s : FibDecoder) (e : ServiceCompDef) : Type 0 where
  pub asc_ty : ℕ
  pub organization : SubChannelOrganization
  pub label : Label
  pub names : e.mode ≡ stream_mode_audio asc_ty organization.sub_ch_id
  pub collected : IsAmong organization s.curr.organizations
  pub labelled : IsLabelled s.labels.programmes e.s_id label

pub has_audio_data-HasAudioParts :
    (s : FibDecoder) (e : ServiceCompDef) → has_audio_data s e ≡ true → HasAudioParts s e
unfolding has_audio_data
has_audio_data-HasAudioParts s e h = elim (Option-cases (audio_data_of s e)) [
  | inl nothing ↦ absurd (ground arith)
  | inr (a, given) ↦
      let d = audio_data_of-IsAudioDataOf s e a given in
      let complete : is_some a.service_label ≡ true = rw (given, has_audio_data) at h in
      elim d.labelled [
        | inl missing ↦ absurd (ground arith)
        | inr (l, is, known) ↦ record {
          asc_ty = a.asc_ty;
          organization = a.organization;
          label = l;
          names = d.same_mode;
          collected = d.collected;
          labelled = known;
        }
      ]
]
