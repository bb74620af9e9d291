-- ===== src/Server/Coded.antt =====
-- src/server.rs: the code of an answer as a relation on the name, the class, the CNAMEs and the cache.
use hopdns.Base.{none, some, ◌≡◌, ◌⊎◌}
use hopdns.Cache.{Cache}
use hopdns.Cnames
use hopdns.Server.{Server}
use hopdns.Server.Known.{InDomain, Known}
use hopdns.Text.{Text}
use hopdns.Wire.{Rcode, no_error, nx_domain, refused}
use hopdns.Wire.Names.{name_text}
use hopdns.Wire.Query.{Query}
use hopdns.Wire.Reply.{Reply}

-- The class IN or ANY.
abbrev pub IsServed : Query → Type 0
IsServed q = (q.qclass ≡ 1) ⊎ (q.qclass ≡ 255)

-- The code for a name: an alias; a name under the domain, known or not; another name, under the
-- zone of an alias or not.
pub data NameCode (s : Server) (c : Cache) (name : Text) : Rcode → Type 0 where
  alias : (target : Text) → Cnames.lookup s.cnames name ≡ some target → NameCode s c name no_error
  known :
      Cnames.lookup s.cnames name ≡ none
      → InDomain s.domain name
      → Known c s.domain name
      → NameCode s c name no_error
  unknown :
      Cnames.lookup s.cnames name ≡ none
      → InDomain s.domain name
      → ¬ Known c s.domain name
      → NameCode s c name nx_domain
  zoned :
      (zone : Text)
      → Cnames.lookup s.cnames name ≡ none
      → ¬ InDomain s.domain name
      → Cnames.zone_of s.cnames name ≡ some zone
      → NameCode s c name nx_domain
  foreign :
      Cnames.lookup s.cnames name ≡ none
      → ¬ InDomain s.domain name
      → Cnames.zone_of s.cnames name ≡ none
      → NameCode s c name refused

-- The code for a query: a name that does not read, another class, and the code for the name.
pub data QueryCode (s : Server) (c : Cache) (q : Query) : Rcode → Type 0 where
  unread : name_text q.qname ≡ none → QueryCode s c q refused
  other_class :
      (name : Text) → name_text q.qname ≡ some name → ¬ IsServed q → QueryCode s c q refused
  named :
      (name : Text) (rc : Rcode)
      → name_text q.qname ≡ some name
      → IsServed q
      → NameCode s c name rc
      → QueryCode s c q rc
