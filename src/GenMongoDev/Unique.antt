-- ===== src/GenMongoDev/Unique.antt =====
-- The devices of utils/gen_mongo_dev/main.go have different names and ids.
use trackeroo.Base.{
  ◌≡◌, ◌≢◌, refl, ap, sym, ◌∙◌, ℕ, zero, suc, ◌+◌, ◌<◌, true, false, some, List, [], ◌∷◌, ◌++◌,
  length, length-append, All, All-append, Bytes, bytes_eq_refl, Bool-cases, Option-cases, inl, inr,
  not_both, arith,
}
use trackeroo.Backend.Token.{gen_private_key}
use trackeroo.GenMongoDev.{
  Generated, Streams, is_used, draw_unused, draw_name, generate, Listing, Listed, finished, no_key,
  out_of_fuel, generate_list, nothing_yet, requested, main_listing,
}

draw_unused_sound :
    (fuel : ℕ) (draw : ℕ → Bytes) (used : List Bytes) (n : ℕ) (res : Bytes × ℕ)
    → draw_unused fuel draw used n ≡ some res
    → is_used res.0 used ≡ false
unfolding draw_unused
draw_unused_sound zero draw used n res e = cc
draw_unused_sound (suc fuel) draw used n res e = elim (Bool-cases (is_used (draw n) used)) [
  | inl f ↦ draw_unused_sound fuel draw used (n + 1) res (rw f at e)
  | inr f ↦ ap (λ r. is_used r used) (sym (found (rw f at e))) ∙ f
]
  where
    found : some (draw n, n + 1) ≡ some res → draw n ≡ res.0
    found g = cc

-- The search ends where one of the next draws is unused and the fuel reaches that far.
pub draw_unused_finds :
    (fuel : ℕ) (draw : ℕ → Bytes) (used : List Bytes) (n k : ℕ)
    → k < fuel
    → is_used (draw (n + k)) used ≡ false
    → (res : Bytes × ℕ) × (draw_unused fuel draw used n ≡ some res)
unfolding draw_unused
draw_unused_finds zero draw used n k h u = absurd (omega (arith, h))
draw_unused_finds (suc fuel) draw used n zero h u =
    let same : n + zero ≡ n = omega arith in ((draw n, n + 1), rw (rw same at u) refl)
draw_unused_finds (suc fuel) draw used n (suc k) h u =
    let same : n + suc k ≡ (n + 1) + k = omega arith in
    let (res, e) = draw_unused_finds fuel draw used (n + 1) k (omega (arith, h)) (rw same at u) in
    elim (Bool-cases (is_used (draw n) used)) [
      | inl f ↦ (res, rw f e)
      | inr f ↦ ((draw n, n + 1), rw f refl)
    ]

-- no two of them share a name or an id
abbrev pub Differs : Generated → Generated → Type 0
Differs g h = (h.name ≢ g.name) × (h.id ≢ g.id)

abbrev pub Unique : List Generated → Type 0
Unique [] = Unit
Unique (g ∷ gs) = All (Differs g) gs × Unique gs

-- all that was printed is marked as used
abbrev Marked : Listing → List Generated → Type 0
Marked l = All (λ g. (is_used g.name l.used_names ≡ true) × (is_used g.id l.used_ids ≡ true))

Unique-snoc :
    (gs : List Generated) (g : Generated)
    → Unique gs
    → All (λ h. Differs h g) gs
    → Unique (gs ++ g ∷ [])
Unique-snoc [] g u d = (tt, tt)
Unique-snoc (h ∷ gs) g u d =
    (All-append (Differs h) gs (g ∷ []) u.0 (d.0, tt), Unique-snoc gs g u.1 d.1)

used_differs :
    (used : List Bytes) (a b : Bytes) → is_used a used ≡ true → is_used b used ≡ false → b ≢ a
used_differs used a b p q e = absurd (not_both p (rw e at q))

fresh-Differs :
    (l : Listing) (g : Generated) (gs : List Generated)
    → is_used g.name l.used_names ≡ false
    → is_used g.id l.used_ids ≡ false
    → Marked l gs
    → All (λ h. Differs h g) gs
fresh-Differs l g [] n i m = tt
fresh-Differs l g (h ∷ gs) n i m = (
  (used_differs l.used_names h.name g.name m.0.0 n, used_differs l.used_ids h.id g.id m.0.1 i),
  fresh-Differs l g gs n i m.1,
)

used_more : (x y : Bytes) (used : List Bytes) → is_used x used ≡ true → is_used x (y ∷ used) ≡ true
unfolding is_used
used_more x y used e = ground arith

used_now : (x : Bytes) (used : List Bytes) → is_used x (x ∷ used) ≡ true
unfolding is_used
used_now x used = rw (bytes_eq_refl x) refl

-- the listing after one more device
abbrev extended : Streams → ℕ → Listing → Bytes × ℕ → Bytes × ℕ → Bytes → Listing
extended x i l named identified key = record {
  used_names = named.0 ∷ l.used_names;
  used_ids = identified.0 ∷ l.used_ids;
  names_drawn = named.1;
  ids_drawn = identified.1;
  printed = l.printed ++ generate x i named.0 identified.0 key ∷ [];
}

Marked-more :
    (l : Listing) (named identified : Bytes × ℕ) (x : Streams) (i : ℕ) (key : Bytes)
    (gs : List Generated)
    → Marked l gs
    → Marked (extended x i l named identified key) gs
Marked-more l named identified x i key [] m = tt
Marked-more l named identified x i key (g ∷ gs) m = (
  (used_more g.name named.0 l.used_names m.0.0, used_more g.id identified.0 l.used_ids m.0.1),
  Marked-more l named identified x i key gs m.1,
)

abbrev marked_by : Listing → Bytes × ℕ → Bytes × ℕ → Listing
marked_by l named identified = record l {
  used_names = named.0 ∷ l.used_names;
  names_drawn = named.1;
  used_ids = identified.0 ∷ l.used_ids;
  ids_drawn = identified.1;
}

-- Every way to go on from one device.
data Steps (fuel : ℕ) (x : Streams) (left i : ℕ) (l : Listing) (res : Listed) : Type 0 where
  runs_out : res ≡ out_of_fuel → Steps fuel x left i l res
  lacks_key : (l' : Listing) → res ≡ no_key l' → Steps fuel x left i l res
  goes_on :
      (named identified : Bytes × ℕ) (key : Bytes)
      → is_used named.0 l.used_names ≡ false
      → is_used identified.0 l.used_ids ≡ false
      → res ≡ generate_list fuel x left (i + 1) (extended x i l named identified key)
      → Steps fuel x left i l res

generate_list-Steps :
    (fuel : ℕ) (x : Streams) (left i : ℕ) (l : Listing)
    → Steps fuel x left i l (generate_list fuel x (suc left) i l)
unfolding generate_list
generate_list-Steps fuel x left i l =
    elim (Option-cases (draw_unused fuel (draw_name x) l.used_names l.names_drawn)) [
      | inl n ↦ runs_out (rw (n, generate_list) refl)
      | inr (named, n) ↦ elim (Option-cases (draw_unused fuel x.new_id l.used_ids l.ids_drawn)) [
        | inl d ↦ runs_out (rw (n, generate_list, d) refl)
        | inr (identified, d) ↦ elim (Option-cases (gen_private_key (x.key i))) [
          | inl k ↦ lacks_key (marked_by l named identified) (rw (n, generate_list, d, k) refl)
          | inr (key, k) ↦
              goes_on named identified key
                (draw_unused_sound fuel (draw_name x) l.used_names l.names_drawn named n)
                (draw_unused_sound fuel x.new_id l.used_ids l.ids_drawn identified d)
                (rw (n, generate_list, d, k) refl)
        ]
      ]
    ]

finished-inj : {l m : Listing} → finished l ≡ finished m → l ≡ m
finished-inj e = cc

generate_list-Unique :
    (fuel : ℕ) (x : Streams) (left i : ℕ) (l l' : Listing)
    → Unique l.printed
    → Marked l l.printed
    → generate_list fuel x left i l ≡ finished l'
    → Unique l'.printed × (length l'.printed ≡ length l.printed + left)
unfolding generate_list
generate_list-Unique fuel x zero i l l' u m e =
    let same = finished-inj e in rw (sym same) (u, omega arith)
generate_list-Unique fuel x (suc left) i l l' u m e = elim (generate_list-Steps fuel x left i l) [
  | runs_out f ↦ absurd (let h = sym f ∙ e in cc)
  | lacks_key k f ↦ absurd (let h = sym f ∙ e in cc)
  | goes_on named identified key n d f ↦
      let l1 = extended x i l named identified key in
      let g = generate x i named.0 identified.0 key in
      let marked =
        All-append _ l.printed (g ∷ []) (Marked-more l named identified x i key l.printed m) (
          (
            unfold generate in used_now named.0 l.used_names,
            unfold generate in used_now identified.0 l.used_ids,
          ),
          tt,
        ) in
      let differs = fresh-Differs l g l.printed (unfold generate in n) (unfold generate in d) m in
      let rest =
        generate_list-Unique fuel x left (i + 1) l1 l' (Unique-snoc l.printed g u differs) marked
          (sym f ∙ e) in
      (rest.0, omega (arith, rest.1, length-append l.printed (g ∷ [])))
]

-- When the list is finished it has as many devices as were asked for, and no two of them share a
-- name or an id, whatever the random numbers are.
pub main_listing-Unique :
    (fuel : ℕ) (x : Streams) (l : Listing)
    → main_listing fuel x ≡ finished l
    → Unique l.printed × (length l.printed ≡ requested)
unfolding main_listing
main_listing-Unique fuel x l e =
    let r = generate_list-Unique fuel x requested 0 nothing_yet l tt tt e in
    (r.0, omega (arith, r.1))
