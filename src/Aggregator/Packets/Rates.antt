-- ===== src/Aggregator/Packets/Rates.antt =====
-- aggregator.py, parse_metric_packet: the sample rates of parsed packets.
use Prim.Native.Char.{code}
use Prim.Native.String.{String, [] as empty, ◌∷◌ as char_cons}
use sts_agent.Prelude.{
  false, ◌==◌, Option, none, some, List, [], ◌∷◌, All, ◌≡◌, inl, inr, Bool-cases,
}
use sts_agent.Prelude.Texts.{Texts, split, split_once}
use sts_agent.Aggregator.Number.{Number, nought, unit}
use sts_agent.Aggregator.Metric.Point.{Result, returned, raised}
use sts_agent.Aggregator.Packets.{
  Literals, Packet, checked_rate, with_rate, metadatum, metadata, packet, valued, parse_fields,
  add_packet, parse_data, parse_named, parse_metric_packet, data_of, value_of, colon, pipe,
}

module _ {V : Type 0} (num : Number V) where
  -- Neither less than 0 nor more than 1.
  abbrev pub IsRate : V → Type 0
  IsRate v = (num.less v (nought num) ≡ false) × (num.less (unit num) v ≡ false)

  -- The packets that are parsed, if the text can be parsed.
  abbrev pub AreRated : Result (List (Packet V)) → Type 0
  AreRated (returned packets) = All (λ p. IsRate p.sample_rate) packets
  AreRated (raised e) = Unit

module _ {V : Type 0} (num : Number V) (literals : Literals V) (one : IsRate num (unit num)) where
  checked_rate-IsRate : (v : V) → IsRate num (checked_rate num literals v)
  checked_rate-IsRate v = elim (Bool-cases (num.less v (nought num))) [
    | inl e ↦ rw e one
    | inr e ↦ elim (Bool-cases (num.less (unit num) v)) [
      | inl f ↦ rw (e, f) one
      | inr f ↦ rw (e, f) (e, f)
    ]
  ]

  abbrev IsRated : Result (V × Option (List String)) → Type 0
  IsRated (returned (rate, tags)) = IsRate num rate
  IsRated (raised e) = Unit

  abbrev IsNext : Option (Result (V × Option (List String))) → Type 0
  IsNext none = Unit
  IsNext (some o) = IsRated o

  with_rate-IsRated :
      (o : Option V) (tags : Option (List String)) → IsRated (with_rate num literals o tags)
  with_rate-IsRated none tags = tt
  with_rate-IsRated (some v) tags = checked_rate-IsRate v

  metadatum-IsNext :
      (m : String) (rate : V) (tags : Option (List String))
      → IsRate num rate
      → IsNext (metadatum num literals m rate tags)
  unfolding metadatum
  metadatum-IsNext empty rate tags h = tt
  metadatum-IsNext (char_cons c m) rate tags h = elim (Bool-cases (code c == b'@')) [
    | inl e ↦ rw e (with_rate-IsRated (literals.float m) tags)
    | inr e ↦ elim (Bool-cases (code c == b'#')) [ inl f ↦ rw (e, f) h | inr f ↦ rw (e, f) h ]
  ]

  resumed :
      (rate : V) (tags : Option (List String)) (o : Option (Result (V × Option (List String))))
      (rest : V → Option (List String) → Result (V × Option (List String)))
      → IsRate num rate
      → IsNext o
      → ((r : V) (ts : Option (List String)) → IsRate num r → IsRated (rest r ts))
      → IsRated (elim o [
        | none ↦ returned (rate, tags)
        | some o ↦ elim o [ raised e ↦ raised e | returned r ↦ rest r.0 r.1 ]
      ])
  resumed rate tags none rest h next k = h
  resumed rate tags (some (raised e)) rest h next k = tt
  resumed rate tags (some (returned (r, ts))) rest h next k = k r ts next

  metadata-IsRated :
      (ms : List String) (rate : V) (tags : Option (List String))
      → IsRate num rate
      → IsRated (metadata num literals ms rate tags)
  unfolding metadata
  metadata-IsRated [] rate tags h = h
  metadata-IsRated (m ∷ ms) rate tags h =
      resumed rate tags (metadatum num literals m rate tags) (metadata num literals ms) h
        (metadatum-IsNext m rate tags h) (metadata-IsRated ms)

  abbrev IsPacket : Result (Option (Packet V)) → Type 0
  IsPacket (returned (some p)) = IsRate num p.sample_rate
  IsPacket (returned none) = Unit
  IsPacket (raised e) = Unit

  packet-IsPacket :
      (name mtype : String) (v : V) (o : Result (V × Option (List String)))
      → IsRated o
      → IsPacket (packet num literals name v mtype o)
  packet-IsPacket name mtype v (raised e) h = tt
  packet-IsPacket name mtype v (returned (rate, tags)) h = h

  valued-IsPacket :
      (name mtype : String) (ms : List String) (o : Result (Option V))
      → IsPacket (valued num literals name mtype ms o)
  valued-IsPacket name mtype ms (raised e) = tt
  valued-IsPacket name mtype ms (returned none) = tt
  valued-IsPacket name mtype ms (returned (some v)) =
      packet-IsPacket name mtype v (metadata num literals ms (unit num) none)
        (metadata-IsRated ms (unit num) none one)

  parse_fields-IsPacket :
      (name : String) (texts : Texts) → IsPacket (parse_fields num literals name texts)
  parse_fields-IsPacket name (raw_value, []) = tt
  parse_fields-IsPacket name (raw_value, mtype ∷ ms) =
      valued-IsPacket name mtype ms (value_of num literals raw_value mtype)

  add_packet-AreRated :
      (o : Result (Option (Packet V))) (rest : Result (List (Packet V)))
      → IsPacket o
      → AreRated num rest
      → AreRated num (add_packet num literals o rest)
  add_packet-AreRated (raised e) rest h k = tt
  add_packet-AreRated (returned o) (raised e) h k = tt
  add_packet-AreRated (returned none) (returned packets) h k = k
  add_packet-AreRated (returned (some p)) (returned packets) h k = (h, k)

  parse_data-AreRated :
      (name : String) (datums : List String) → AreRated num (parse_data num literals name datums)
  unfolding parse_data
  parse_data-AreRated name [] = tt
  parse_data-AreRated name (datum ∷ more) =
      add_packet-AreRated (parse_fields num literals name (split pipe datum))
        (parse_data num literals name more) (parse_fields-IsPacket name (split pipe datum))
        (parse_data-AreRated name more)

  parse_named-AreRated : (o : Option (String × String)) → AreRated num (parse_named num literals o)
  parse_named-AreRated none = tt
  parse_named-AreRated (some (name, rest)) =
      parse_data-AreRated name ((data_of rest).0 ∷ (data_of rest).1)

  -- Whatever text is parsed, the sample rate of each parsed packet is neither less than 0 nor more
  -- than 1, if that holds of the number 1.
  pub parse_metric_packet-AreRated :
      (text : String) → AreRated num (parse_metric_packet num literals text)
  unfolding parse_metric_packet
  parse_metric_packet-AreRated text = parse_named-AreRated (split_once colon text)
