-- ===== src/Examples/F5World.antt =====
-- The provider of f5_controller.go over a BIG-IP in memory, and load balancers for it. The operator's
-- F5 load balancers are in one partition, so its object stays as it is.
use lbconfig_operator.Base.{
  itoa, String, pos, ◌≡◌, refl, sym, subst, true, false, none, some, List, [], ◌∷◌, ◌==◌, string_eq,
  int_eq, to_lower, contains,
}
use lbconfig_operator.Base.Dict.{lookup}
use lbconfig_operator.Base.Text.{has_char, ends_outside}
use lbconfig_operator.Api.{Node, Provider, ExternalLoadBalancer}
use lbconfig_operator.Backend.{Backend}
use lbconfig_operator.Backend.Device.{Device, Does, Unique, put}
use lbconfig_operator.Backend.Loops.{All}
use lbconfig_operator.Backend.Members.{AllFit}
use lbconfig_operator.Reconcile.Vips.{vip_name}
use lbconfig_operator.Backend.Stages.{MemberFrame}
use lbconfig_operator.Labels.{compute_labels}
use lbconfig_operator.Nodes.{select_nodes, select_node, get_node_ip, any_ready, collect_ips}
use lbconfig_operator.Registry.{Registry}
use lbconfig_operator.Reconcile.{finalizer, monitor_for, pool_for, vip_for}
use lbconfig_operator.Reconcile.Pools.{NodupHosts}
use lbconfig_operator.Reconcile.Configure.{ProviderLaws, Suits}
use lbconfig_operator.Reconcile.Deleted.{NodupPorts}
use lbconfig_operator.Providers.F5.{F5Provider}
use lbconfig_operator.Providers.F5.Config.{folder}
use lbconfig_operator.Providers.F5.Methods.{methods, create}
use lbconfig_operator.Providers.F5.Appliance.{Appliance, BigIpLaws}
use lbconfig_operator.Providers.F5.Objects.{ObjectLaws}
use lbconfig_operator.Providers.F5.View.{keeps_monitor, keeps_member, device_of}
use lbconfig_operator.Providers.F5.Lawful.{suits_monitor, suits_vip}
use lbconfig_operator.Providers.F5.Provides.{
  member_frame, create-Does, provider_laws, provider_laws-Suits,
}
use lbconfig_operator.Examples.BigIpMemory.{itself, big_ip}
use lbconfig_operator.Examples.BigIpWhole.{
  whole, whole_laws, whole-ObjectLaws, folder-common, slashless, colonless,
}
use lbconfig_operator.Examples.Sample.{balancer, doomed, kube_nodes}

abbrev pub object : Appliance → F5Provider
object a = record {
  host = "https://10.0.0.5";
  hostport = pos 443;
  username = "admin";
  password = "pw";
  partition = "/Common/";
  validatecerts = false;
  lbmethod = "round-robin";
}

abbrev pub provider : Backend Appliance
provider = methods object whole (create (λ p a. a))

abbrev pub view : Appliance → Device
view a = device_of (folder "") a

pub laws_at : BigIpLaws (folder "") itself whole
laws_at = subst (λ h. BigIpLaws h itself whole) (sym folder-common) whole_laws

pub objects_at : ObjectLaws (folder "") itself whole
objects_at = subst (λ h. ObjectLaws h itself whole) (sym folder-common) whole-ObjectLaws

pub plain : has_char (folder "") ":" ≡ false
plain = subst (λ h. has_char h ":" ≡ false) (sym folder-common) colonless

pub hosted : (a : Appliance) → (host : String) × (whole.url_host (object a).host ≡ some host)
unfolding big_ip
hosted a = (_, refl)

pub made :
    (p : Provider) (user password : String) (a : Appliance)
    → Does view (create (λ p a. a) p user password) a tt (view a)
made =
    create-Does "" slashless plain itself object (λ a. sym folder-common) whole laws_at objects_at
      (create (λ p a. a)) (λ p a. a) (λ p a. refl)

pub f5_laws : ProviderLaws view provider
f5_laws =
    provider_laws "" slashless plain itself object (λ a. sym folder-common) whole laws_at objects_at
      (create (λ p a. a)) hosted made

pub f5_frame : MemberFrame view provider
f5_frame =
    member_frame "" slashless plain itself object (λ a. sym folder-common) whole laws_at objects_at
      (create (λ p a. a))

abbrev pub empty : Appliance
empty = record { monitors = λ k. none; pools = λ k. none; vips = λ k. none; nodes = λ k. none }

pub empty-Unique : Unique (view empty)
empty-Unique k q h = cc

abbrev pub registry : Registry Appliance
registry = ("f5_bigip", provider) ∷ []

pub registered : lookup (to_lower "F5_BigIP") registry ≡ some provider
unfolding to_lower string_eq
registered = refl

abbrev pub nodes : List Node
nodes = select_nodes (compute_labels balancer) kube_nodes

pub hosts : NodupHosts nodes
unfolding select_nodes select_node get_node_ip any_ready collect_ips string_eq
hosts = (refl, (refl, tt))

pub ports : NodupPorts balancer.spec.ports
unfolding int_eq
ports = (refl, (refl, tt))

pub listed : contains doomed.finalizers finalizer ≡ true
unfolding string_eq
listed = refl

pub selective : balancer.spec.type == "" ≡ false
unfolding string_eq
selective = refl

named : keeps_monitor (folder "") (monitor_for balancer).name ≡ true
unfolding string_eq ends_outside has_char
named = refl

members :
    All
      (λ p. AllFit keeps_member (pool_for balancer nodes (monitor_for balancer) p).members)
      balancer.spec.ports
unfolding select_nodes select_node get_node_ip any_ready collect_ips string_eq has_char pool_for
members = ((refl, (refl, tt)), ((refl, (refl, tt)), tt))

monitor_suits : suits_monitor none (monitor_for balancer) ≡ true
unfolding has_char int_eq
monitor_suits = refl

vips_suit :
    All
      (λ p.
        suits_vip (folder "") ((view empty).vips (vip_name balancer p)) (vip_for balancer p) ≡ true)
      balancer.spec.ports
unfolding has_char string_eq ends_outside vip_for
vips_suit = (refl, (refl, tt))

pub suits : Suits view provider f5_laws balancer nodes (view empty)
unfolding f5_laws
suits =
    provider_laws-Suits "" slashless plain itself object (λ a. sym folder-common) whole laws_at
      objects_at (create (λ p a. a)) hosted made balancer nodes (view empty) named members
      monitor_suits vips_suit

pub suits_doomed : Suits view provider f5_laws doomed nodes (view empty)
unfolding f5_laws pool_for vip_for
suits_doomed =
    provider_laws-Suits "" slashless plain itself object (λ a. sym folder-common) whole laws_at
      objects_at (create (λ p a. a)) hosted made doomed nodes (view empty) named members
      monitor_suits vips_suit

-- The load balancer with another address, and BIG-IP with the virtual server of the old one.
abbrev pub moved : ExternalLoadBalancer
moved = record balancer { spec = record balancer.spec { vip = "10.0.0.99" } }

abbrev pub occupied : Appliance
occupied = record empty {
  vips = put empty.vips (vip_name balancer (pos 80)) (some (vip_for balancer (pos 80)));
}

vips_move :
    All
      (λ p.
        suits_vip (folder "") ((view occupied).vips (vip_name moved p)) (vip_for moved p) ≡ true)
      moved.spec.ports
unfolding has_char string_eq ends_outside vip_for itoa
vips_move = (refl, (refl, tt))

pub suits_moved : Suits view provider f5_laws moved nodes (view occupied)
unfolding f5_laws pool_for
suits_moved =
    provider_laws-Suits "" slashless plain itself object (λ a. sym folder-common) whole laws_at
      objects_at (create (λ p a. a)) hosted made moved nodes (view occupied) named members
      monitor_suits vips_move
