-- ===== src/FibDecoder/Session/Audio.antt =====
-- The data of an audio service that a session gives.
use mathlib.Core.Path.{subst}
use mathlib.Core.Option.{some-injective}
use dabstar.Prelude.{
  ap, ℕ, ◌≡◌, sym, inl, inr, true, Bool-cases, some, List, [], ◌∷◌, ◌==◌, ltb, All, arith,
}
use dabstar.SubChannel.Fig01.{SubChannelOrganization, organization_of}
use dabstar.SubChannel.Fig01.Disjoint.{FitsCif}
use dabstar.FibDecoder.Tables.{IsAmong, find_by_holds, find_by-IsAmong}
use dabstar.FibDecoder.Session.Data.{bind-some, IsAudioDataOf, audio_data_of-IsAudioDataOf}
use dabstar.FibDecoder.Config.{
  TransportMode, stream_mode_audio, stream_mode_data, reserved, packet_mode_data, ServiceCompDef,
  audio_component_of, is_audio_of,
}
use dabstar.FibDecoder.State.{FibDecoder, rank}
use dabstar.FibDecoder.Services.{
  AudioData, make_audio_data, audio_data_by_mode, audio_data_of, get_data_for_audio_service,
}
use dabstar.FibDecoder.Sound.{IsSound}
use dabstar.FibDecoder.Session.{Reach, Reach-IsSound}

FitsCif-organization_of :
    (es : List SubChannelOrganization) (i : ℕ) (o : SubChannelOrganization)
    → All FitsCif es
    → organization_of es i ≡ some o
    → FitsCif o × (o.sub_ch_id ≡ i)
unfolding organization_of
FitsCif-organization_of [] i o a h = ground arith
FitsCif-organization_of (e ∷ es) i o a h = elim (Bool-cases (e.sub_ch_id == i)) [
  | inl t ↦ ground (arith, a.0)
  | inr f ↦ FitsCif-organization_of es i o a.1 (ground arith)
]

-- A component's data name its service and a sub-channel inside the CIF.
audio_data_by_mode_fits :
    (s : FibDecoder) (e : ServiceCompDef) (m : TransportMode) (a : AudioData)
    → IsSound s
    → audio_data_by_mode s e m ≡ some a
    → (a.s_id ≡ e.s_id) × FitsCif a.organization
unfolding audio_data_by_mode make_audio_data
audio_data_by_mode_fits s e (stream_mode_audio asc_ty i) a b h =
    let (o, (found, same)) = bind-some (organization_of s.curr.organizations i) _ a h in
    let fits : FitsCif o =
      (FitsCif-organization_of s.curr.organizations i o b.of_curr.organizations.fitting found).0 in
    let same_a : make_audio_data s e asc_ty o ≡ a = some-injective _ _ same in
    (
      sym (ap (λ (x : AudioData). x.s_id) same_a),
      subst (λ (x : AudioData). FitsCif x.organization) same_a fits,
    )
audio_data_by_mode_fits s e (stream_mode_data d i) a b h = ground arith
audio_data_by_mode_fits s e reserved a b h = ground arith
audio_data_by_mode_fits s e (packet_mode_data i) a b h = ground arith

audio_data_of_fits :
    (s : FibDecoder) (e : ServiceCompDef) (a : AudioData)
    → IsSound s
    → audio_data_of s e ≡ some a
    → (a.s_id ≡ e.s_id) × FitsCif a.organization
unfolding audio_data_of
audio_data_of_fits s e a b h = elim (Bool-cases (e.pd_flag == 0)) [
  | inl programme ↦ audio_data_by_mode_fits s e e.mode a b (rw programme at h)
  | inr service ↦ absurd (ground arith)
]

-- In every state that a session reaches: the data of an audio service that are given belong to an
-- audio component of the service that was asked for. Their type is that of the component, their
-- sub-channel is the one that it names, as FIG 0/1 described it, with capacity units inside the CIF,
-- and their label, if there is one, is what FIG 1/1 gave for the service.
pub get_data_for_audio_service_fits :
    (s : FibDecoder) (s_id : ℕ) (a : AudioData)
    → Reach s
    → get_data_for_audio_service s s_id ≡ some a
    → (e : ServiceCompDef) × IsAmong e s.curr.components
      × (e.s_id ≡ s_id)
      × IsAudioDataOf s e a
      × FitsCif a.organization
unfolding get_data_for_audio_service audio_component_of
get_data_for_audio_service_fits s s_id a r h = elim (Bool-cases (ltb (rank s.loading_state) 1)) [
  | inl early ↦ absurd (ground arith)
  | inr loaded ↦
      let (e, (found, given)) =
        bind-some (audio_component_of s.curr s_id) (λ e. audio_data_of s e) a (rw loaded at h) in
      let (same, fits) = audio_data_of_fits s e a (Reach-IsSound r) given in
      let here : is_audio_of s_id e ≡ true =
        find_by_holds (is_audio_of s_id) s.curr.components e found in
      (
        e,
        find_by-IsAmong (is_audio_of s_id) s.curr.components e found,
        of_test e s_id here,
        audio_data_of-IsAudioDataOf s e a given,
        fits,
      )
]
  where
    of_test : (e : ServiceCompDef) (i : ℕ) → is_audio_of i e ≡ true → e.s_id ≡ i
    of_test e i t = ground arith
