-- ===== src/FibDecoder/Multiplex/UserApps.antt =====
-- _subprocess_Fig0s13 of fib_decoder_fig0.cpp: the user applications of a service component.
use dabstar.Prelude.{
  ℕ, zero, suc, ◌+◌, ◌-◌, ◌*◌, ◌/◌, Bool, false, ◌&&◌, Option, none, some, List, [], ◌∷◌, ◌++◌,
  ◌==◌, ltb, leb, if◌then◌else◌,
}
use dabstar.Bits.{get_bits, get_l_bits, get_bits_1, get_bits_4, get_bits_5, get_bits_6}
use dabstar.SubChannel.Fig01.{FigHeader}
use dabstar.FibDecoder.Config.{UserApp, UserApplications, FibConfig, user_application_of}
use dabstar.FibDecoder.State.{FibDecoder, store}

-- An application at bit `o`.
unfoldable pub read_user_app : List Bool → ℕ → ℕ → UserApp
unfolding get_bits get_bits_1 get_bits_5 get_bits_6
read_user_app d pd_flag o =
    let data_length = get_bits_5 d (o + 11) in
    record {
      user_app_type = get_bits d o 11;
      user_app_data_length = data_length;
      x_pad_data =
          if pd_flag == 0 && leb 2 data_length
          then some (record {
            ca_flag = get_bits_1 d (o + 16);
            ca_org_flag = get_bits_1 d (o + 17);
            x_pad_app_ty = get_bits_5 d (o + 19);
            dg_flag = get_bits_1 d (o + 24);
            dsc_ty = get_bits_6 d (o + 26);
          })
          else none;
    }

-- The loop over `i`, with the applications left: the next bit, and the applications.
unfoldable pub user_apps_loop : ℕ → List Bool → ℕ → ℕ → ℕ × List UserApp
unfolding read_user_app
user_apps_loop zero d pd_flag o = (o, [])
user_apps_loop (suc left) d pd_flag o =
    let u = read_user_app d pd_flag o in
    let rest = user_apps_loop left d pd_flag (o + (11 + 5 + 8 * u.user_app_data_length)) in
    (rest.0, u ∷ rest.1)

-- NumUserApps is at most the size of UserAppVec.
abbrev pub clamp_user_apps : ℕ → ℕ
clamp_user_apps n = if ltb 6 n then 6 else n

unfoldable pub read_user_applications : List Bool → ℕ → FigHeader → UserApplications
unfolding get_l_bits get_bits_4 user_apps_loop
read_user_applications d used fh =
    let sid_bits = if fh.pd_flag == 1 then 32 else 16 in
    let o = used * 8 + sid_bits in
    let apps = user_apps_loop (clamp_user_apps (get_bits_4 d (o + 4))) d fh.pd_flag (o + 8) in
    record {
      pd_flag = fh.pd_flag;
      s_id = get_l_bits d (used * 8) sid_bits;
      sc_ids = get_bits_4 d o;
      user_apps = apps.1;
      size_bits = apps.0 - used * 8;
    }

abbrev pub add_user_applications : UserApplications → FibConfig → FibConfig
add_user_applications e c = record c { user_applications = c.user_applications ++ (e ∷ []) }

-- The two branches on the entry that was found.
unfoldable pub store_user_applications :
    Option UserApplications → UserApplications → ℕ → ℕ → FibDecoder → ℕ × FibDecoder
unfolding store
store_user_applications (some known) e used cn_flag s = ((known.size_bits + used * 8) / 8, s)
store_user_applications none e used cn_flag s =
    ((used * 8 + e.size_bits) / 8, store false cn_flag (add_user_applications e) s)

-- The search is in the current configuration, whatever the C/N flag says.
unfoldable pub process_user_applications : List Bool → ℕ → FigHeader → FibDecoder → ℕ × FibDecoder
unfolding read_user_applications user_application_of store_user_applications
process_user_applications d used fh s =
    let e = read_user_applications d used fh in
    store_user_applications (user_application_of s.curr e.s_id e.sc_ids) e used fh.cn_flag s
