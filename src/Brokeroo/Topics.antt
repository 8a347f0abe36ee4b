-- ===== src/Brokeroo/Topics.antt =====
-- Which MQTT topics the bridge takes, and the Kafka topics that it makes of them.
use trackeroo.Base.{
  ◌≡◌, ◌↔◌, refl, ap, ◌∙◌, sym, some, List, [], ◌∷◌, ◌++◌, arith, Bytes, codes, bytes_eq,
  bytes_eq_iff, Lacks, split, split-append, split-Lacks, rejoin, rejoin-split, split-parts,
}
use trackeroo.Brokeroo.{data_parts, parse_topic, sanitize_topic}

-- j/data/DEVID/TAG
abbrev pub data_topic : Bytes → Bytes → Bytes
data_topic dev tag = codes "j/data/" ++ (dev ++ b'/' ∷ tag)

data_parts_sound :
    (ps : List Bytes) (dev tag : Bytes)
    → data_parts ps ≡ some (dev, tag)
    → ps ≡ codes "j" ∷ codes "data" ∷ dev ∷ tag ∷ []
unfolding data_parts
data_parts_sound [] dev tag e = cc
data_parts_sound (p ∷ []) dev tag e = cc
data_parts_sound (p ∷ q ∷ []) dev tag e = cc
data_parts_sound (p ∷ q ∷ d ∷ []) dev tag e = cc
data_parts_sound (p ∷ q ∷ d ∷ g ∷ []) dev tag e =
    ground (arith, bytes_eq_iff p (codes "j"), bytes_eq_iff q (codes "data"))
data_parts_sound (p ∷ q ∷ d ∷ g ∷ x ∷ ps) dev tag e = cc

parse-split : (topic : Bytes) → parse_topic topic ≡ data_parts (split b'/' topic)
unfolding parse_topic
parse-split topic = refl

data_topic-split :
    (dev tag : Bytes)
    → Lacks b'/' dev
    → Lacks b'/' tag
    → split b'/' (data_topic dev tag) ≡ codes "j" ∷ codes "data" ∷ dev ∷ tag ∷ []
data_topic-split dev tag d g =
    split-append b'/' (codes "j") (codes "data/" ++ (dev ++ b'/' ∷ tag)) (omega arith)
    ∙ ap (λ ps. codes "j" ∷ ps)
        (split-append b'/' (codes "data") (dev ++ b'/' ∷ tag) (omega arith)
          ∙ ap (λ ps. codes "data" ∷ ps)
              (split-append b'/' dev tag d ∙ ap (λ ps. dev ∷ ps) (split-Lacks b'/' tag g)))

data_parts_complete :
    (dev tag : Bytes) → data_parts (codes "j" ∷ codes "data" ∷ dev ∷ tag ∷ []) ≡ some (dev, tag)
unfolding data_parts bytes_eq
data_parts_complete dev tag = refl

-- The handler takes a topic apart into a device and a tag exactly if it is j/data/DEVID/TAG for
-- the two, neither of which holds a slash.
pub parse_topic_iff :
    (topic dev tag : Bytes)
    → (parse_topic topic ≡ some (dev, tag))
      ↔ ((topic ≡ data_topic dev tag) × Lacks b'/' dev × Lacks b'/' tag)
parse_topic_iff topic dev tag = (taken, made)
  where
    taken :
        parse_topic topic ≡ some (dev, tag)
        → (topic ≡ data_topic dev tag) × Lacks b'/' dev × Lacks b'/' tag
    taken e =
        let parts = data_parts_sound (split b'/' topic) dev tag (sym (parse-split topic) ∙ e) in
        let lacks = rw parts at (split-parts b'/' topic) in
        (sym (rejoin-split b'/' topic) ∙ ap (rejoin b'/') parts, lacks.1.1.0, lacks.1.1.1.0)

    made :
        ((topic ≡ data_topic dev tag) × Lacks b'/' dev × Lacks b'/' tag)
        → parse_topic topic ≡ some (dev, tag)
    made (e, d, g) =
        ap parse_topic e
        ∙ parse-split (data_topic dev tag)
        ∙ ap data_parts (data_topic-split dev tag d g)
        ∙ data_parts_complete dev tag

-- A Kafka topic, which the sanitizer makes, has no slash.
pub sanitize-Lacks : (s : Bytes) → Lacks b'/' (sanitize_topic s)
unfolding sanitize_topic
sanitize-Lacks [] = tt
sanitize-Lacks (c ∷ s) = (ground arith, sanitize-Lacks s)

-- Two MQTT topics that hold no dash never share a Kafka topic.
pub sanitize_topic_injective :
    (s t : Bytes) → Lacks b'-' s → Lacks b'-' t → sanitize_topic s ≡ sanitize_topic t → s ≡ t
unfolding sanitize_topic
sanitize_topic_injective [] [] hs ht e = refl
sanitize_topic_injective [] (d ∷ t) hs ht e = cc
sanitize_topic_injective (c ∷ s) [] hs ht e = cc
sanitize_topic_injective (c ∷ s) (d ∷ t) hs ht e =
    ground (arith, sanitize_topic_injective s t hs.1 ht.1)
