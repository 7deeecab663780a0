-- ===== src/Tests/Urls.antt =====
-- Runs of `SubversionUriCanonicalize` of src/SubversionHds.cc, and of its theorems.
use svnsrv.Base.{[], ◌∷◌, ◌++◌, ◌≡◌, if◌then◌else◌, is_empty, arith}
use svnsrv.Base.Text.{Bytes, codes}
use svnsrv.Url.{equal, fresh_url, canonicalize}
use svnsrv.Url.Segments.{segment, by_segments, rejected}
use svnsrv.Url.Correct.{render, canonicalize_segments}
use svnsrv.Url.Forms.{IsParts, canonicalize-render, canonicalize-render_port}
use svnsrv.Tests.Concrete.{read_long}

abbrev no_slashes : Bytes
no_slashes = codes "svn://h"

missing_slash : (canonicalize read_long (codes "svn:/h/o/r/p") (fresh_url 7)).0 ≡ 2
missing_slash = ground (arith, canonicalize_segments read_long (codes "svn:/h/o/r/p") 7)

canonicalize_segments_example : canonicalize read_long no_slashes (fresh_url 7) ≡ (
    if is_empty no_slashes
    then (1, fresh_url 7)
    else if is_empty (segment 1 no_slashes)
    then (0, by_segments no_slashes)
    else (2, rejected no_slashes 7))
canonicalize_segments_example = canonicalize_segments read_long no_slashes 7

abbrev sample_parts : IsParts (codes "svn+ssh") (codes "h.io") (codes "ow") (codes "re")
sample_parts = record {
  scheme_bytes = omega arith;
  host_bytes = omega arith;
  owner_bytes = omega arith;
  repository_bytes = omega arith;
}

canonicalize-render_example :
    canonicalize read_long
      (render (codes "svn+ssh") (codes "h.io") (codes "ow") (codes "re") (codes "trunk/a"))
      (fresh_url 7)
    ≡ (
      0,
      record {
        scheme = codes "svn+ssh";
        account = [];
        host = codes "h.io";
        port = 21;
        owner = codes "ow";
        repository = codes "re";
        path = codes "/trunk/a";
      },
    )
unfolding equal
canonicalize-render_example =
    canonicalize-render read_long 7 (codes "svn+ssh") (codes "h.io") (codes "ow") (codes "re")
      (codes "trunk/a") sample_parts

canonicalize-render_port_example :
    canonicalize read_long
      (render
        (codes "svn+ssh")
        (codes "h.io" ++ b':' ∷ codes "3691")
        (codes "ow")
        (codes "re")
        (codes "trunk/a"))
      (fresh_url 7)
    ≡ (
      0,
      record {
        scheme = codes "svn+ssh";
        account = [];
        host = codes "3691";
        port = 21;
        owner = codes "ow";
        repository = codes "re";
        path = codes "/trunk/a";
      },
    )
unfolding equal
canonicalize-render_port_example =
    canonicalize-render_port read_long 7 (codes "svn+ssh") (codes "h.io") (codes "ow") (codes "re")
      (codes "trunk/a") (codes "3691") (omega arith) sample_parts
