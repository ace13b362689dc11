-- ===== src/SubChannel/Fig01/Disjoint.antt =====
-- The collected sub-channels share no capacity unit and lie inside the CIF.
use dabstar.Prelude.{
  ℕ, zero, suc, ◌+◌, ◌*◌, ◌≤◌, ◌≡◌, ◌≢◌, ◌⊎◌, inl, inr, ap, ◌∙◌, Bool, Bool-cases, false, List, [],
  ◌∷◌, ◌++◌, Option-cases, none, ◌==◌, leb, ltb, All, arith,
}
use dabstar.Bits.{get_bits_6}
use dabstar.SubChannel.Fig01.{
  SubChannelOrganization, FibState, FigHeader, num_cu_per_cif, has_colliding, organization_of,
  read_organization, get_config, set_config, store_organization, subprocess_fig0s1, fig0s1_loop,
  process_fig0s1, get_fig_header, read_short_form, read_long_form,
}

-- No capacity unit belongs to both, and the identifiers differ.
abbrev pub Apart : SubChannelOrganization → SubChannelOrganization → Type 0
Apart e f =
    (f.start_addr + f.sub_channel_size ≤ e.start_addr)
    ⊎ ((e.start_addr + e.sub_channel_size ≤ f.start_addr) ⊎ (e.sub_channel_size ≡ 0))

abbrev pub Separate : SubChannelOrganization → SubChannelOrganization → Type 0
Separate e f = Apart e f × (e.sub_ch_id ≢ f.sub_ch_id)

abbrev pub AllSeparate : List SubChannelOrganization → Type 0
AllSeparate [] = Unit
AllSeparate (e ∷ es) = All (Separate e) es × AllSeparate es

abbrev pub FitsCif : SubChannelOrganization → Type 0
FitsCif e = e.start_addr + e.sub_channel_size ≤ num_cu_per_cif

-- A configuration that a multiplex can have.
pub record IsConfig (es : List SubChannelOrganization) : Type 0 where
  pub separate : AllSeparate es
  pub fitting : All FitsCif es

pub record IsValid (s : FibState) : Type 0 where
  pub curr_config : IsConfig s.curr
  pub next_config : IsConfig s.next

All-snoc :
    (P : SubChannelOrganization → Type 0) (es : List SubChannelOrganization)
    (f : SubChannelOrganization)
    → All P es
    → P f
    → All P (es ++ (f ∷ []))
All-snoc P [] f h p = (p, tt)
All-snoc P (e ∷ es) f h p = (h.0, All-snoc P es f h.1 p)

AllSeparate-snoc :
    (es : List SubChannelOrganization) (f : SubChannelOrganization)
    → AllSeparate es
    → All (λ e. Separate e f) es
    → AllSeparate (es ++ (f ∷ []))
AllSeparate-snoc [] f h p = (tt, tt)
AllSeparate-snoc (e ∷ es) f h p =
    (All-snoc (Separate e) es f h.0 p.0, AllSeparate-snoc es f h.1 p.1)

Apart-of_test :
    (e f : SubChannelOrganization) (es : List SubChannelOrganization)
    → has_colliding (e ∷ es) f ≡ false
    → Apart e f × (has_colliding es f ≡ false)
unfolding has_colliding
Apart-of_test e f es h = ground arith

other_id :
    (e : SubChannelOrganization) (es : List SubChannelOrganization) (i : ℕ)
    → organization_of (e ∷ es) i ≡ none
    → (e.sub_ch_id ≢ i) × (organization_of es i ≡ none)
unfolding organization_of
other_id e es i h = ground arith

All-Separate :
    (es : List SubChannelOrganization) (f : SubChannelOrganization)
    → has_colliding es f ≡ false
    → organization_of es f.sub_ch_id ≡ none
    → All (λ e. Separate e f) es
All-Separate [] f h k = tt
All-Separate (e ∷ es) f h k =
    let (a, h') = Apart-of_test e f es h in
    let (n, k') = other_id e es f.sub_ch_id k in ((a, n), All-Separate es f h' k')

IsConfig-snoc :
    (es : List SubChannelOrganization) (f : SubChannelOrganization)
    → IsConfig es
    → has_colliding es f ≡ false
    → organization_of es f.sub_ch_id ≡ none
    → FitsCif f
    → IsConfig (es ++ (f ∷ []))
IsConfig-snoc es f c h k fits = record {
  separate = AllSeparate-snoc es f c.separate (All-Separate es f h k);
  fitting = All-snoc FitsCif es f c.fitting fits;
}

empty-IsConfig : IsConfig []
empty-IsConfig = record { separate = tt; fitting = tt }

get_config-IsConfig : (s : FibState) (cn : ℕ) → IsValid s → IsConfig (get_config s cn)
get_config-IsConfig s cn v = elim (Bool-cases (cn == 0)) [
  | inl e ↦ rw e v.curr_config
  | inr e ↦ rw e v.next_config
]

set_config-IsValid :
    (s : FibState) (cn : ℕ) (c : List SubChannelOrganization)
    → IsValid s
    → IsConfig c
    → IsValid (set_config s cn c)
set_config-IsValid s cn c v w = elim (Bool-cases (cn == 0)) [
  | inl e ↦ rw e (record { curr_config = w; next_config = v.next_config })
  | inr e ↦ rw e (record { curr_config = v.curr_config; next_config = w })
]

store_organization-IsValid :
    (s : FibState) (cn : ℕ) (e : SubChannelOrganization)
    → IsValid s
    → organization_of (get_config s cn) e.sub_ch_id ≡ none
    → IsValid (store_organization s cn e)
unfolding store_organization
store_organization-IsValid s cn e v unknown =
    elim (Bool-cases (ltb num_cu_per_cif (e.start_addr + e.sub_channel_size))) [
      | inl big ↦ rw big (record { curr_config = empty-IsConfig; next_config = empty-IsConfig })
      | inr fits ↦ rw fits (elim (Bool-cases (has_colliding (get_config s cn) e)) [
        | inl hit ↦ rw hit (record { curr_config = empty-IsConfig; next_config = empty-IsConfig })
        | inr free ↦ rw free (
            set_config-IsValid s cn _ v (
              IsConfig-snoc (get_config s cn) e (get_config-IsConfig s cn v) free unknown
                (ground arith)))
      ])
    ]

sub_ch_id-read_organization :
    (d : List Bool) (o : ℕ) → (read_organization d o).sub_ch_id ≡ get_bits_6 d o
unfolding read_organization read_short_form read_long_form
sub_ch_id-read_organization d o = ground arith

pub subprocess_fig0s1-IsValid :
    (d : List Bool) (offset : ℕ) (fh : FigHeader) (s : FibState)
    → IsValid s
    → IsValid (subprocess_fig0s1 d offset fh s).1
unfolding subprocess_fig0s1
subprocess_fig0s1-IsValid d offset fh s v =
    elim (Option-cases (organization_of (get_config s fh.cn_flag) (get_bits_6 d (offset * 8)))) [
      | inl unknown ↦
          rw (unknown, subprocess_fig0s1)
            (store_organization-IsValid s fh.cn_flag (read_organization d (offset * 8)) v (
              ap (organization_of (get_config s fh.cn_flag))
                (sub_ch_id-read_organization d (offset * 8))
              ∙ unknown))
      | inr (e, known) ↦ rw (known, subprocess_fig0s1) v
    ]

fig0s1_loop-IsValid :
    (fuel : ℕ) (d : List Bool) (used : ℕ) (fh : FigHeader) (s : FibState)
    → IsValid s
    → IsValid (fig0s1_loop fuel d used fh s)
unfolding fig0s1_loop
fig0s1_loop-IsValid zero d used fh s v = v
fig0s1_loop-IsValid (suc fuel) d used fh s v =
    let next = subprocess_fig0s1 d used fh s in
    let v' = subprocess_fig0s1-IsValid d used fh s v in
    elim (Bool-cases (leb used fh.fig_length)) [
      | inl more ↦ rw more (elim (Bool-cases next.1.restart) [
        | inl stop ↦ rw stop v'
        | inr on ↦ rw on (fig0s1_loop-IsValid fuel d next.0 fh next.1 v')
      ])
      | inr done ↦ rw done v
    ]

-- Whatever bits a FIG 0/1 holds: in both configurations the sub-channels afterwards lie inside the
-- CIF, no two of them share a capacity unit or an identifier, if that was so before.
pub process_fig0s1-IsValid :
    (d : List Bool) (s : FibState) → IsValid s → IsValid (process_fig0s1 d s)
unfolding process_fig0s1
process_fig0s1-IsValid d s v =
    fig0s1_loop-IsValid (suc (get_fig_header d).fig_length) d 2 (get_fig_header d) s v
