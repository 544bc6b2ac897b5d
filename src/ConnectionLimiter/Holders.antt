-- ===== src/ConnectionLimiter/Holders.antt =====
-- The limiter counts a bag of addresses, one for each connection that it admitted.
use transcription_api.Prelude.{
  Text, text_eq, Text_discrete, ℕ, zero, suc, ◌+◌, ◌-◌, ◌≤◌, ◌<◌, ◌≡◌, ◌∙◌, inl, inr, ◌&&◌, some,
  List, [], ◌∷◌, arith, ltb, leb, if◌then◌else◌, Bool-cases, length, get_elem?,
}
use transcription_api.Prelude.Dict.{
  Dict, lookup, insert, Keyed, lookup-insert_self, lookup-insert_ne, lookup-erase_self,
  lookup-erase_ne, insert-Keyed, erase-Keyed,
}
use transcription_api.ConnectionLimiter.{
  ConnectionLimiter, or_zero, touch, try_acquire, drop_one, release, remove_at,
}

abbrev pub count : Text → List Text → ℕ
count ip [] = 0
count ip (x ∷ xs) = (if text_eq x ip then 1 else 0) + count ip xs

-- The entries of the table are the counts of the bag.
pub record Tallies (d : Dict ℕ) (held : List Text) : Type 0 where
  pub keyed : Keyed d
  pub exact : (ip : Text) → or_zero (lookup ip d) ≡ count ip held

pub record Represents (l : ConnectionLimiter) (held : List Text) : Type 0 where
  pub tallies : Tallies l.per_ip held
  pub counted : l.total ≡ length held
  pub within : length held ≤ l.max_total
  pub shared : (ip : Text) → count ip held ≤ l.max_per_ip

touch-lookup : (ip j : Text) (d : Dict ℕ) → or_zero (lookup j (touch ip d)) ≡ or_zero (lookup j d)
unfolding touch
touch-lookup ip j d = elim (Text_discrete j ip) [
  | yes e ↦ ground (arith, lookup-insert_self ip 0 d)
  | no e ↦ ground (arith, lookup-insert_ne j ip 0 d)
]

touch-Keyed : (ip : Text) (d : Dict ℕ) → Keyed d → Keyed (touch ip d)
unfolding touch
touch-Keyed ip d k = ground (arith, insert-Keyed ip 0 d k)

pub touch-Tallies :
    (ip : Text) (d : Dict ℕ) (held : List Text) → Tallies d held → Tallies (touch ip d) held
touch-Tallies ip d held t = record {
  keyed = touch-Keyed ip d t.keyed;
  exact = λ j. touch-lookup ip j d ∙ t.exact j;
}

pub insert-Tallies :
    (ip : Text) (d : Dict ℕ) (held : List Text)
    → Tallies d held
    → Tallies (insert ip (or_zero (lookup ip d) + 1) (touch ip d)) (ip ∷ held)
insert-Tallies ip d held t = record {
  keyed = insert-Keyed ip _ _ (touch-Keyed ip d t.keyed);
  exact = λ j. elim (Text_discrete j ip) [
    | yes e ↦
        ground (arith, lookup-insert_self ip (or_zero (lookup ip d) + 1) (touch ip d), t.exact ip)
    | no e ↦ ground (
      arith,
      lookup-insert_ne j ip (or_zero (lookup ip d) + 1) (touch ip d),
      touch-lookup ip j d,
      t.exact j,
    )
  ];
}

count-remove_at :
    (i : ℕ) (j ip : Text) (held : List Text)
    → get_elem? held i ≡ some ip
    → count j (remove_at i held) + (if text_eq ip j then 1 else 0) ≡ count j held
count-remove_at i j ip [] h = cc
count-remove_at zero j ip (x ∷ xs) h = ground arith
count-remove_at (suc i) j ip (x ∷ xs) h = omega (arith, count-remove_at i j ip xs h)

length-remove_at :
    (i : ℕ) (ip : Text) (held : List Text)
    → get_elem? held i ≡ some ip
    → length (remove_at i held) + 1 ≡ length held
length-remove_at i ip [] h = cc
length-remove_at zero ip (x ∷ xs) h = omega arith
length-remove_at (suc i) ip (x ∷ xs) h = omega (arith, length-remove_at i ip xs h)

drop_one-Keyed : (ip : Text) (d : Dict ℕ) → Keyed d → Keyed (drop_one ip d)
unfolding drop_one
drop_one-Keyed ip d k =
    ground (arith, erase-Keyed ip d k, insert-Keyed ip (or_zero (lookup ip d) - 1) d k)

drop_one-lookup :
    (ip j : Text) (d : Dict ℕ)
    → Keyed d
    → or_zero (lookup j (drop_one ip d)) ≡ or_zero (lookup j d) - (if text_eq ip j then 1 else 0)
unfolding drop_one
drop_one-lookup ip j d k = elim (Text_discrete ip j) [
  | yes e ↦
      ground (arith, lookup-insert_self ip (or_zero (lookup ip d) - 1) d, lookup-erase_self ip d k)
  | no e ↦
      ground (arith, lookup-insert_ne j ip (or_zero (lookup ip d) - 1) d, lookup-erase_ne j ip d)
]

pub drop_one-Tallies :
    (ip : Text) (i : ℕ) (d : Dict ℕ) (held : List Text)
    → get_elem? held i ≡ some ip
    → Tallies d held
    → Tallies (drop_one ip d) (remove_at i held)
drop_one-Tallies ip i d held h t = record {
  keyed = drop_one-Keyed ip d t.keyed;
  exact =
      λ j. omega (arith, drop_one-lookup ip j d t.keyed, t.exact j, count-remove_at i j ip held h);
}

admit-Represents :
    (ip : Text) (l : ConnectionLimiter) (held : List Text)
    → Represents l held
    → length held < l.max_total
    → count ip held < l.max_per_ip
    → Represents
        (record l {
          per_ip = insert ip (or_zero (lookup ip l.per_ip) + 1) (touch ip l.per_ip);
          total = l.total + 1;
        })
        (ip ∷ held)
admit-Represents ip l held r room share = record {
  tallies = insert-Tallies ip l.per_ip held r.tallies;
  counted = omega (arith, r.counted);
  within = omega arith;
  shared = λ j. elim (Text_discrete ip j) [
    | yes e ↦ ground (arith, r.shared j)
    | no e ↦ ground (arith, r.shared j)
  ];
}

touched-Represents :
    (ip : Text) (l : ConnectionLimiter) (held : List Text)
    → Represents l held
    → Represents (record l { per_ip = touch ip l.per_ip }) held
touched-Represents ip l held r = record {
  tallies = touch-Tallies ip l.per_ip held r.tallies;
  counted = r.counted;
  within = r.within;
  shared = r.shared;
}

-- `tryAcquire` admits a connection exactly while both limits have room, and counts it if it does.
pub try_acquire-Represents :
    (ip : Text) (l : ConnectionLimiter) (held : List Text)
    → Represents l held
    → let (admitted, l') = try_acquire ip l in
      (admitted ≡ (ltb (length held) l.max_total && ltb (count ip held) l.max_per_ip))
      × Represents l' (if admitted then ip ∷ held else held)
unfolding try_acquire
try_acquire-Represents ip l held r = elim (Bool-cases (leb l.max_total l.total)) [
  | inl full ↦ rw (full, try_acquire) (ground (arith, r.counted), r)
  | inr room ↦ elim (Bool-cases (leb l.max_per_ip (or_zero (lookup ip l.per_ip)))) [
    | inl many ↦
        rw (room, many, try_acquire)
          (ground (arith, r.tallies.exact ip, r.counted), touched-Represents ip l held r)
    | inr few ↦
        rw (room, few, try_acquire)
          (
            ground (arith, r.tallies.exact ip, r.counted),
            admit-Represents ip l held r (ground (arith, r.counted))
                (ground (arith, r.tallies.exact ip)),
          )
  ]
]

-- Releasing a connection of the bag takes it out of the counts.
pub release-Represents :
    (ip : Text) (i : ℕ) (l : ConnectionLimiter) (held : List Text)
    → get_elem? held i ≡ some ip
    → Represents l held
    → Represents (release ip l) (remove_at i held)
unfolding release
release-Represents ip i l held h r = record {
  tallies = drop_one-Tallies ip i l.per_ip held h r.tallies;
  counted = ground (arith, length-remove_at i ip held h, r.counted);
  within = omega (arith, length-remove_at i ip held h, r.within);
  shared = λ j. omega (arith, count-remove_at i j ip held h, r.shared j);
}
