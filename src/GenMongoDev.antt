-- ===== src/GenMongoDev.antt =====
-- utils/gen_mongo_dev/main.go: a list of devices for the development database. Each random number,
-- id, key and time is taken from a stream; `reads` counts what was taken from it.
pub mod Unique
use trackeroo.Base.{
  ℕ, zero, suc, ◌+◌, ◌-◌, ◌<◌, ltb, ◌||◌, Bool, true, false, Option, none, some, List, [], ◌∷◌,
  ◌++◌, Bytes, codes, bytes_eq, if◌then◌else◌, length, get_elem?,
}
use trackeroo.Base.Decimal.{format_bool}
use trackeroo.Backend.Token.{gen_private_key}

abbrev pub container_names : List Bytes
container_names =
    codes "amazing_turing"
    ∷ codes "boring_wozniak"
    ∷ codes "clever_newton"
    ∷ codes "dreamy_tesla"
    ∷ codes "eager_darwin"
    ∷ codes "friendly_curie"
    ∷ codes "gracious_hawking"
    ∷ codes "happy_einstein"
    ∷ codes "intelligent_jobs"
    ∷ codes "jolly_gates"
    ∷ codes "kind_torvalds"
    ∷ codes "loving_lovelace"
    ∷ codes "mystifying_feynman"
    ∷ codes "naughty_dijkstra"
    ∷ codes "optimistic_babbage"
    ∷ codes "peaceful_pascal"
    ∷ codes "quirky_shannon"
    ∷ codes "relaxed_turing"
    ∷ codes "serene_hopper"
    ∷ codes "trusting_knuth"
    ∷ codes "upbeat_ritchie"
    ∷ codes "vibrant_thompson"
    ∷ codes "wonderful_wirth"
    ∷ codes "xenodochial_carmack"
    ∷ codes "youthful_stallman"
    ∷ codes "zealous_berners"
    ∷ codes "admiring_bohr"
    ∷ codes "adoring_morse"
    ∷ codes "affectionate_bell"
    ∷ codes "agitated_planck"
    ∷ codes "amazing_galileo"
    ∷ codes "angry_maxwell"
    ∷ codes "boring_heisenberg"
    ∷ codes "brave_schrodinger"
    ∷ codes "busy_pauli"
    ∷ codes "charming_dirac"
    ∷ codes "clever_fermi"
    ∷ codes "compassionate_oppenheimer"
    ∷ codes "competent_rutherford"
    ∷ codes "condescending_volta"
    ∷ codes "confident_faraday"
    ∷ codes "cool_ohm"
    ∷ codes "cranky_ampere"
    ∷ codes "crazy_coulomb"
    ∷ codes "curious_feynman"
    ∷ codes "dazzling_maxwell"
    ∷ codes "determined_kelvin"
    ∷ codes "distracted_planck"
    ∷ codes "dreamy_euler"
    ∷ codes "eager_gauss"
    ∷ codes "ecstatic_riemann"
    ∷ codes "elastic_fourier"
    ∷ codes "elegant_lagrange"
    ∷ codes "elated_laplace"
    ∷ codes "eloquent_leibniz"
    ∷ codes "enchanting_poincare"
    ∷ codes "energetic_hilbert"
    ∷ codes "epic_cantor"
    ∷ codes "exciting_godel"
    ∷ codes "exotic_turing"
    ∷ codes "fabulous_ramanujan"
    ∷ codes "faithful_hardy"
    ∷ codes "fancy_erdos"
    ∷ codes "fascinated_noether"
    ∷ codes "fearless_galois"
    ∷ codes "fervent_abel"
    ∷ codes "flamboyant_jacobi"
    ∷ codes "focused_cauchy"
    ∷ codes "friendly_weierstrass"
    ∷ codes "frosty_dedekind"
    ∷ codes "funny_peano"
    ∷ codes "furious_russell"
    ∷ codes "gallant_whitehead"
    ∷ codes "gentle_church"
    ∷ codes "gifted_kleene"
    ∷ codes "goofy_markov"
    ∷ codes "graceful_chebyshev"
    ∷ codes "great_kolmogorov"
    ∷ codes "grieving_wiener"
    ∷ codes "groovy_shannon"
    ∷ codes "happy_nyquist"
    ∷ codes "hardcore_bell"
    ∷ codes "heartwarming_bose"
    ∷ codes "heuristic_fermi"
    ∷ codes "hopeful_bardeen"
    ∷ codes "hungry_cooper"
    ∷ codes "hyper_shockley"
    ∷ codes "inspiring_bardeen"
    ∷ codes "interesting_watson"
    ∷ codes "inventive_crick"
    ∷ codes "iron_franklin"
    ∷ codes "jaunty_pauling"
    ∷ codes "jovial_mendeleev"
    ∷ codes "keen_bohr"
    ∷ codes "laughing_rutherford"
    ∷ codes "lucid_heisenberg"
    ∷ codes "magical_dirac"
    ∷ codes "magnificent_feynman"
    ∷ codes "merry_schwinger"
    ∷ codes "modest_dyson"
    ∷ codes "motivated_penrose"
    ∷ codes "nervous_hawking"
    ∷ codes "noble_weinberg"
    ∷ codes "nostalgic_salam"
    ∷ codes "objective_glashow"
    ∷ codes "optimized_higgs"
    ∷ codes "original_yang"
    ∷ codes "outstanding_lee"
    ∷ codes "patient_wu"
    ∷ codes "pedantic_pauli"
    ∷ codes "phenomenal_born"
    ∷ codes "pious_planck"
    ∷ codes "playful_compton"
    ∷ codes "polite_millikan"
    ∷ codes "practical_michelson"
    ∷ codes "proud_morley"
    ∷ codes "puzzled_fizeau"
    ∷ codes "quizzical_doppler"
    ∷ codes "romantic_hertz"
    ∷ codes "sad_marconi"
    ∷ codes "serene_tesla"
    ∷ codes "sharp_edison"
    ∷ codes "silly_westinghouse"
    ∷ codes "sleepy_siemens"
    ∷ codes "stoic_ohm"
    ∷ codes "strange_ampere"
    ∷ codes "suspicious_volta"
    ∷ codes "sweet_galvani"
    ∷ codes "tender_faraday"
    ∷ codes "thirsty_henry"
    ∷ codes "thoughtful_weber"
    ∷ codes "thrilled_gauss"
    ∷ []

abbrev pub device_types : List Bytes
device_types =
    codes "valuable"
    ∷ codes "food"
    ∷ codes "private_transport"
    ∷ codes "public_transport"
    ∷ codes "other"
    ∷ []

pub record Generated : Type 0 where
  pub id : Bytes
  pub name : Bytes
  pub connected : Bool
  pub last_message : Bytes
  pub device_type : Bytes
  pub private_key : Bytes
  pub created_at : Bytes

-- The streams: names and types by `Intn`, ids, and for each device the rest. `key i` is nothing where
-- the random source fails.
pub record Streams : Type 0 where
  pub name_index : ℕ → ℕ
  pub new_id : ℕ → Bytes
  pub key : ℕ → Option Bytes
  pub type_index : ℕ → ℕ
  pub connected : ℕ → Bool
  pub last_message : ℕ → Bytes
  pub created_at : ℕ → Bytes

unfoldable pub is_used : Bytes → List Bytes → Bool
unfolding bytes_eq
is_used x [] = false
is_used x (y ∷ ys) = bytes_eq y x || is_used x ys

-- The loop that draws until something unused comes: what it found, and how often it has drawn in
-- all. It is `none` when it is out of fuel.
unfoldable pub draw_unused : ℕ → (ℕ → Bytes) → List Bytes → ℕ → Option (Bytes × ℕ)
unfolding is_used
draw_unused zero draw used n = none
draw_unused (suc fuel) draw used n =
    let again = draw_unused fuel draw used (n + 1) in
    if is_used (draw n) used then again else some (draw n, n + 1)

unfoldable pub name_of : Option Bytes → Bytes
name_of none = []
name_of (some s) = s

abbrev pub draw_name : Streams → ℕ → Bytes
draw_name x n = name_of (get_elem? container_names (x.name_index n))

unfoldable pub generate : Streams → ℕ → Bytes → Bytes → Bytes → Generated
unfolding name_of
generate x i name id key = record {
  id = id;
  name = name;
  connected = x.connected i;
  last_message = x.last_message i;
  device_type = name_of (get_elem? device_types (x.type_index i));
  private_key = key;
  created_at = x.created_at i;
}

-- The names and ids that were used, how many of each were drawn, and what was printed.
pub record Listing : Type 0 where
  pub used_names : List Bytes
  pub used_ids : List Bytes
  pub names_drawn : ℕ
  pub ids_drawn : ℕ
  pub printed : List Generated

-- How the loop ends: it prints the last device, a key cannot be made, or the fuel is out.
pub data Listed : Type 0 where
  finished : Listing → Listed
  no_key : Listing → Listed
  out_of_fuel : Listed

-- The loop over the devices: `left` of them are still to come, and `i` is the number of the next one.
unfoldable pub generate_list : ℕ → Streams → ℕ → ℕ → Listing → Listed
unfolding draw_unused generate gen_private_key
generate_list fuel x zero i l = finished l
generate_list fuel x (suc left) i l =
    elim (draw_unused fuel (draw_name x) l.used_names l.names_drawn) [
      | none ↦ out_of_fuel
      | some named ↦ elim (draw_unused fuel x.new_id l.used_ids l.ids_drawn) [
        | none ↦ out_of_fuel
        | some identified ↦
            let marked : Listing = record l {
              used_names = named.0 ∷ l.used_names;
              names_drawn = named.1;
              used_ids = identified.0 ∷ l.used_ids;
              ids_drawn = identified.1;
            } in
            elim (gen_private_key (x.key i)) [
              | none ↦ no_key marked
              | some key ↦ generate_list fuel x left (i + 1) (record marked {
                printed = l.printed ++ generate x i named.0 identified.0 key ∷ [];
              })
            ]
      ]
    ]

-- the object in JavaScript
unfoldable pub js_object : Generated → Bytes
unfolding format_bool
js_object g =
    codes "{\n    _id: \""
    ++ (g.id
        ++ (codes "\",\n    name: \""
            ++ (g.name
                ++ (codes "\",\n    status: { connected: "
                    ++ (format_bool g.connected
                        ++ (codes ", last_message: \""
                            ++ (g.last_message
                                ++ (codes "\" },\n    device_type: \""
                                    ++ (g.device_type
                                        ++ (codes "\",\n    private_key: \""
                                            ++ (g.private_key
                                                ++ (codes "\",\n    created_at: ISODate(\""
                                                    ++ (g.created_at ++ codes "\"),\n}")))))))))))))

-- the objects with what is printed between and after them
unfoldable pub print_objects : List Generated → Bytes
unfolding js_object
print_objects [] = []
print_objects (g ∷ []) = js_object g ++ codes "\n"
print_objects (g ∷ h ∷ gs) = js_object g ++ (codes ",\n" ++ print_objects (h ∷ gs))

abbrev pub nothing_yet : Listing
nothing_yet = record {
  used_names = [];
  used_ids = [];
  names_drawn = 0;
  ids_drawn = 0;
  printed = [];
}

-- `main` asks for 100 devices, or for as many as there are names.
unfoldable pub requested : ℕ
requested = if ltb (length container_names) 100 then length container_names else 100

unfoldable pub main_listing : ℕ → Streams → Listed
unfolding generate_list requested
main_listing fuel x = generate_list fuel x requested 0 nothing_yet
