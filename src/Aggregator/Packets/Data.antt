-- ===== src/Aggregator/Packets/Data.antt =====
-- aggregator.py, parse_metric_packet: how the data of a packet are told apart.
use Prim.Native.String.{String, ◌∷◌ as char_cons, ◌++◌ as str_append}
use sts_agent.Prelude.{Bool, true, false, List, [], ◌∷◌, All, ◌≡◌, refl, ap, ◌∙◌}
use sts_agent.Prelude.Texts.{Texts, has_char, split, join, join-split, join-append, has_char-append}
use sts_agent.Aggregator.Packets.{attach, next_partial, colon, pipe, regroup, data_of}

-- A datum after the first, with the pipe that sets it apart.
abbrev pub HasPipe : String → Type 0
HasPipe datum = has_char pipe datum ≡ true

join-attach :
    (b : Bool) (partial token : String) (tokens : List String) (texts : Texts)
    → join colon texts ≡ join colon (next_partial b partial token, tokens)
    → join colon (attach b partial texts) ≡ join colon (partial, token ∷ tokens)
join-attach true partial token tokens texts h = ap (λ s. str_append partial (char_cons colon s)) h
join-attach false partial token tokens texts h = h ∙ join-append colon partial token tokens

join-regroup :
    (partial : String) (tokens : List String)
    → join colon (regroup partial tokens) ≡ join colon (partial, tokens)
unfolding regroup
join-regroup partial [] = refl
join-regroup partial (token ∷ tokens) =
    let next = next_partial (has_char pipe token) partial token in
    join-attach (has_char pipe token) partial token tokens (regroup next tokens)
      (join-regroup next tokens)

-- Every datum but the first has a pipe, and the first one if the text it starts with has one.
abbrev HavePipes : Bool → Texts → Type 0
HavePipes b (datum, more) = (b ≡ true → HasPipe datum) × All HasPipe more

attach-HavePipes :
    (b c : Bool) (partial token : String) (texts : Texts)
    → has_char pipe token ≡ b
    → has_char pipe partial ≡ c
    → HavePipes (has_char pipe (next_partial b partial token)) texts
    → HavePipes c (attach b partial texts)
attach-HavePipes true c partial token texts h k (first, more) = (λ e. k ∙ e, (first h, more))
attach-HavePipes false c partial token texts h k (first, more) =
    (λ e. first (has_char-append pipe partial (char_cons colon token) (k ∙ e)), more)

regroup-HavePipes :
    (partial : String) (tokens : List String)
    → HavePipes (has_char pipe partial) (regroup partial tokens)
unfolding regroup
regroup-HavePipes partial [] = (λ e. e, tt)
regroup-HavePipes partial (token ∷ tokens) =
    let next = next_partial (has_char pipe token) partial token in
    attach-HavePipes (has_char pipe token) (has_char pipe partial) partial token
      (regroup next tokens) refl refl (regroup-HavePipes next tokens)

-- Nothing of a packet is lost when its data are told apart: joined by colons they are what follows
-- the name. Every datum but the first has a pipe.
pub join-data_of :
    (rest : String) → (join colon (data_of rest) ≡ rest) × All HasPipe (data_of rest).1
unfolding data_of
join-data_of rest = (
  join-regroup (split colon rest).0 (split colon rest).1 ∙ join-split colon rest,
  (regroup-HavePipes (split colon rest).0 (split colon rest).1).1,
)
