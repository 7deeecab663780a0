-- ===== src/Tests/Answers.antt =====
-- Runs of `ParseSubversionHds` of src/SubversionHds.cc, and of its theorems.
use svnsrv.Base.{List, [], ◌∷◌, ◌++◌, some, ◌≡◌, refl, arith, ltb, if◌then◌else◌, ◌-◌, ◌^◌, ◌+◌}
use svnsrv.Base.Text.{Bytes, codes}
use svnsrv.Handshake.{
  SubversionHds, ok, fault, length_error, protocol_of, parse, fails, url_too_long,
}
use svnsrv.Handshake.RoundTrip.{opening, counted, Marks, parse-answer, parse-negative_mark, listed}
use svnsrv.Handshake.Outcome.{IsOutcome, parse-IsOutcome}
use svnsrv.Tests.Concrete.{read_long, long_reader}

abbrev pub new_hds : SubversionHds
new_hds = record {
  protocol = 0;
  capabilities = [];
  subversion_url = [];
  user_agent = [];
  last_error = [];
}

abbrev pub words_sent : List Bytes
words_sent = codes "edit-pipeline" ∷ codes "svndiff1" ∷ []

abbrev pub url_sent : Bytes
url_sent = codes "svn://h/ow/re/p"

abbrev pub agent_sent : Bytes
agent_sent = codes "SVN/1 x"

pub url_marked : Marks (codes "15") url_sent
url_marked = record { not_empty = λ e. cc; digits = omega arith; value = refl; fits = omega arith }

pub agent_marked : Marks (codes "7") agent_sent
agent_marked = record {
  not_empty = λ e. cc;
  digits = omega arith;
  value = refl;
  fits = omega arith;
}

abbrev pub answer_sent : Bytes
answer_sent =
    opening b'2' words_sent
      (counted (codes "15") url_sent (counted (codes "7") agent_sent (codes "( ) ) ")))

answer_is_text :
    answer_sent ≡ codes "( 2 ( edit-pipeline svndiff1 ) 15:svn://h/ow/re/p 7:SVN/1 x ( ) ) "
answer_is_text = refl

parse-answer_example :
    (parse read_long (2 ^ 40) (some answer_sent) new_hds
      ≡ ok (record {
        protocol = protocol_of b'2';
        capabilities = words_sent;
        subversion_url = url_sent;
        user_agent = agent_sent;
        last_error = [];
      }))
    × (protocol_of (b'0' + 2) ≡ 2)
parse-answer_example =
    parse-answer long_reader (2 ^ 40) b'2' words_sent (codes "15") url_sent (codes "7") agent_sent
      (codes "( ) ) ") new_hds 2 (omega arith)
      (((λ e. cc), omega arith), (((λ e. cc), omega arith), tt)) (λ e. cc) url_marked agent_marked
      (omega arith) (omega arith)

parse-IsOutcome_example :
    IsOutcome (some answer_sent) new_hds (parse read_long (2 ^ 40) (some answer_sent) new_hds)
parse-IsOutcome_example = parse-IsOutcome read_long (2 ^ 40) (some answer_sent) new_hds tt

parse-negative_mark_example :
    parse read_long
      (2 ^ 40)
      (some (opening b'2' words_sent (b'-' ∷ (codes "12" ++ b':' ∷ codes "svn"))))
      new_hds
    ≡ (if ltb (2 ^ 40 - (3 + 1)) 11
        then fails url_too_long (listed b'2' words_sent new_hds).hds
        else fault length_error)
parse-negative_mark_example =
    parse-negative_mark long_reader (2 ^ 40) b'2' words_sent (codes "12") (codes "svn") new_hds 11
      (omega arith) (((λ e. cc), omega arith), (((λ e. cc), omega arith), tt)) (omega arith) refl
      (omega arith)
